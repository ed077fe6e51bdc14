-- ===== src/Foundry/Digest.antt =====
-- internal/foundry/digest.go: Digest and DigestValid. The bytes that crypto/sha256 returns are a
-- parameter.
use Prim.Native.Char.{Char, code}
use agent_runtime_foundry.Base.Text.{size, utf8_size, cut_prefix, append}
use agent_runtime_foundry.Base.{
  ℕ, zero, suc, ◌+◌, ◌*◌, ◌/◌, ◌%◌, String, ◌≡◌, refl, Bool, true, false, not, ◌&&◌, ◌||◌, Option,
  none, some, List, [], ◌∷◌, arith, leb, ◌==◌, nat_eq, string_eq, if◌then◌else◌, length,
}

-- A lower-case hexadecimal digit.
unfoldable pub is_hex : ℕ → Bool
is_hex c = (leb b'0' c && leb c b'9') || (leb b'a' c && leb c b'f')

unfoldable pub all_hex : String → Bool
unfolding is_hex
all_hex String.[] = true
all_hex (String.◌∷◌ c s) = is_hex (code c) && all_hex s

all_hex_option : Option String → Bool
all_hex_option none = false
all_hex_option (some s) = all_hex s

-- DigestValid
unfoldable pub digest_valid : String → Bool
unfolding size cut_prefix all_hex all_hex_option
digest_valid value =
    if not (size value == 71) then false else all_hex_option (cut_prefix value "sha256:")

-- The character at a position; past the end, `f`.
pick : String → ℕ → Char
pick String.[] n = "f"
pick (String.◌∷◌ c s) zero = c
pick (String.◌∷◌ c s) (suc n) = pick s n

-- encoding/hex: the digit of a number below 16, from its table.
unfoldable pub hex_digit : ℕ → Char
unfolding pick
hex_digit n = pick "0123456789abcdef" n

unfoldable pub hex_encode : List ℕ → String
unfolding hex_digit
hex_encode [] = String.[]
hex_encode (b ∷ bs) =
    String.◌∷◌ (hex_digit (b / 16)) (String.◌∷◌ (hex_digit (b % 16)) (hex_encode bs))

-- Digest, given what crypto/sha256 returns for the bytes of a value.
unfoldable pub digest : List ℕ → String
unfolding hex_encode append
digest sum = append "sha256:" (hex_encode sum)

pick-is_hex : (s : String) (n : ℕ) → all_hex s ≡ true → is_hex (code (pick s n)) ≡ true
unfolding all_hex pick
pick-is_hex String.[] n h = refl
pick-is_hex (String.◌∷◌ c s) zero h = ground arith
pick-is_hex (String.◌∷◌ c s) (suc n) h = pick-is_hex s n (ground arith)

hex_digit-is_hex : (n : ℕ) → is_hex (code (hex_digit n)) ≡ true
unfolding hex_digit
hex_digit-is_hex n = pick-is_hex "0123456789abcdef" n (unfold all_hex in refl)

is_hex_size : (c : ℕ) → is_hex c ≡ true → utf8_size c ≡ 1
unfolding is_hex utf8_size
is_hex_size c h = ground arith

hex_digit_size : (n : ℕ) → utf8_size (code (hex_digit n)) ≡ 1
hex_digit_size n = is_hex_size _ (hex_digit-is_hex n)

hex_encode-all_hex : (bs : List ℕ) → all_hex (hex_encode bs) ≡ true
unfolding all_hex hex_encode
hex_encode-all_hex [] = refl
hex_encode-all_hex (b ∷ bs) =
    ground (arith, hex_digit-is_hex (b / 16), hex_digit-is_hex (b % 16), hex_encode-all_hex bs)

hex_encode_size : (bs : List ℕ) → size (hex_encode bs) ≡ 2 * length bs
unfolding size hex_encode
hex_encode_size [] = refl
hex_encode_size (b ∷ bs) =
    omega (arith, hex_digit_size (b / 16), hex_digit_size (b % 16), hex_encode_size bs)

prefix_size : (s : String) → size (append "sha256:" s) ≡ 7 + size s
unfolding size append
prefix_size s = omega arith

-- The digest of 32 bytes passes the check that every reader of a digest makes.
pub digest-valid : (sum : List ℕ) → length sum ≡ 32 → digest_valid (digest sum) ≡ true
unfolding digest_valid digest
digest-valid sum h =
    ground (arith, prefix_size (hex_encode sum), hex_encode_size sum, hex_encode-all_hex sum)
