-- ===== src/Adapter/Frames/After.antt =====
-- framesAfter against a plain description: the frames whose number is above the given one.
use agent_runtime_foundry.Harness.Types.{ℤ, pos, negsuc}
use agent_runtime_foundry.Harness.Messages.{HarnessEventFrame}
use agent_runtime_foundry.Adapter.Sound.Sequence.{Numbered}
use agent_runtime_foundry.Adapter.Types.{TurnState}
use agent_runtime_foundry.Adapter.Frames.{drop_frames, skipped, frames_after, turn_stream_idle}
use agent_runtime_foundry.Base.{
  ℕ, zero, suc, ◌+◌, ◌≤◌, ◌≡◌, ◌∙◌, refl, ap, sym, Bool, true, false, if_elim, if◌then◌else◌, List,
  [], ◌∷◌, length, ltb, arith,
}

-- after < seq, on signed numbers.
abbrev pub above : ℤ → ℤ → Bool
above (pos n) (pos m) = ltb n m
above (pos n) (negsuc m) = false
above (negsuc n) (pos m) = true
above (negsuc n) (negsuc m) = ltb m n

-- The frames above a number, one by one.
abbrev pub frames_above : ℤ → List HarnessEventFrame → List HarnessEventFrame
frames_above n [] = []
frames_above n (f ∷ frames) =
    let rest = frames_above n frames in if above n f.seq then f ∷ rest else rest

all_above :
    (a : ℕ) (n : ℕ) (frames : List HarnessEventFrame)
    → Numbered n frames
    → a ≤ n
    → frames_above (pos a) frames ≡ frames
all_above a n [] h le = refl
all_above a n (f ∷ frames) h le = ground (arith, h.0, all_above a (suc n) frames h.1 (omega arith))

all_negative :
    (a : ℕ) (n : ℕ) (frames : List HarnessEventFrame)
    → Numbered n frames
    → frames_above (negsuc a) frames ≡ frames
all_negative a n [] h = refl
all_negative a n (f ∷ frames) h = ground (arith, h.0, all_negative a (suc n) frames h.1)

dropped :
    (k n : ℕ) (frames : List HarnessEventFrame)
    → Numbered n frames
    → drop_frames k frames ≡ frames_above (pos (n + k)) frames
unfolding drop_frames
dropped zero n frames h = sym (all_above (n + 0) n frames h (omega arith))
dropped (suc k) n [] h = refl
dropped (suc k) n (f ∷ frames) h = ground (arith, h.0, dropped k (suc n) frames h.1)

none_above :
    (a n : ℕ) (frames : List HarnessEventFrame)
    → Numbered n frames
    → n + length frames ≤ a
    → frames_above (pos a) frames ≡ frames_above (pos (n + length frames)) frames
none_above a n [] h le = refl
none_above a n (f ∷ frames) h le =
    ground (arith, h.0, none_above a (suc n) frames h.1 (omega arith))

-- For a turn whose frames are numbered from one, framesAfter gives exactly the frames whose number is
-- above the given one, a negative or a too large one included, and says whether the turn is over or
-- waits for tools.
pub frames_after-frames_above :
    (t : TurnState) (after_seq : ℤ)
    → Numbered 0 t.frames
    → frames_after t after_seq ≡ (frames_above after_seq t.frames, turn_stream_idle t)
unfolding frames_after skipped
frames_after-frames_above t (pos n) h =
    ap (λ (l : List HarnessEventFrame). (l, turn_stream_idle t))
      (if_elim (λ (k : ℕ). drop_frames k t.frames ≡ frames_above (pos n) t.frames)
        (ltb n (length t.frames)) _ _
        (λ _. dropped n 0 t.frames h ∙ ap (λ (k : ℕ). frames_above (pos k) t.frames) (omega arith))
        (λ past.
          dropped (length t.frames) 0 t.frames h
          ∙ sym (none_above n 0 t.frames h (ground (arith, past)))))
frames_after-frames_above t (negsuc n) h =
    ap (λ (l : List HarnessEventFrame). (l, turn_stream_idle t))
      (dropped 0 0 t.frames h
        ∙ all_above 0 0 t.frames h (omega arith)
        ∙ sym (all_negative n 0 t.frames h))
