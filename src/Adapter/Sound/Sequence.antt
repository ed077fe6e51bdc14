-- ===== src/Adapter/Sound/Sequence.antt =====
-- Lists of frames: numbered from one, with a terminal frame at the end or none.
use agent_runtime_foundry.Harness.Types.{pos}
use agent_runtime_foundry.Harness.Messages.{HarnessEventFrame, TurnFailed}
use agent_runtime_foundry.Base.{
  Option, none, some, ℕ, suc, ◌+◌, ◌≡◌, ◌⊎◌, sym, ap, ◌∙◌, Bool, true, false, ◌||◌, List, [], ◌∷◌,
  ◌++◌, length, length-append, All, ◌==◌, string_eq, arith,
}
use mathlib.Core.List.{append_assoc, append-nil}

-- The frames after which nothing follows.
abbrev pub is_terminal_frame : HarnessEventFrame → Bool
is_terminal_frame f =
    f.frame_type == "TurnCompleted"
    || f.frame_type == "TurnFailed"
    || f.frame_type == "TurnCancelled"

-- Whether a frame reports a failure that may be tried again.
abbrev pub failed_retryable : Option TurnFailed → Bool
failed_retryable none = false
failed_retryable (some failure) = failure.retryable

abbrev pub is_retryable : HarnessEventFrame → Bool
is_retryable f = failed_retryable f.failed

abbrev pub IsNonterminal : HarnessEventFrame → Type 0
IsNonterminal f = (is_terminal_frame f ≡ false) × (is_retryable f ≡ false)

-- The frames carry the numbers after `n`, with no gap.
abbrev pub Numbered : ℕ → List HarnessEventFrame → Type 0
Numbered n [] = Unit
Numbered n (f ∷ frames) = (f.seq ≡ pos (suc n)) × Numbered (suc n) frames

pub Numbered-append :
    (n : ℕ) (frames : List HarnessEventFrame) (f : HarnessEventFrame)
    → Numbered n frames
    → f.seq ≡ pos (suc (n + length frames))
    → Numbered n (frames ++ f ∷ [])
Numbered-append n [] f h e = (ground (arith, e), tt)
Numbered-append n (g ∷ frames) f h e = (h.0, Numbered-append (suc n) frames f h.1 (ground arith))

-- No frame is terminal, or the last one is and no other.
abbrev pub Ended : List HarnessEventFrame → Type 0
Ended frames =
    All IsNonterminal frames
    ⊎ ((before : List HarnessEventFrame) × (last : HarnessEventFrame) × (frames
          ≡ before ++ last ∷ [])
        × All IsNonterminal before
        × (is_terminal_frame last ≡ true))

abbrev pub Prefix : List HarnessEventFrame → List HarnessEventFrame → Type 0
Prefix old new = (rest : List HarnessEventFrame) × (new ≡ old ++ rest)

pub Prefix-append :
    (old new : List HarnessEventFrame) (f : HarnessEventFrame)
    → Prefix old new
    → Prefix old (new ++ f ∷ [])
Prefix-append old new f (rest, e) = (
  rest ++ f ∷ [],
  ap (λ (l : List HarnessEventFrame). l ++ f ∷ []) e ∙ append_assoc old rest (f ∷ []),
)

pub Prefix-refl : (l : List HarnessEventFrame) → Prefix l l
Prefix-refl l = ([], sym (append-nil l))

pub Prefix-trans : (a b d : List HarnessEventFrame) → Prefix a b → Prefix b d → Prefix a d
Prefix-trans a b d (r, e) (s, h) =
    (r ++ s, h ∙ ap (λ (l : List HarnessEventFrame). l ++ s) e ∙ append_assoc a r s)

pub length-snoc :
    (frames : List HarnessEventFrame) (f : HarnessEventFrame)
    → length (frames ++ f ∷ []) ≡ suc (length frames)
length-snoc frames f = omega (arith, length-append frames (f ∷ []))
