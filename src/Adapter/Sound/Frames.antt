-- ===== src/Adapter/Sound/Frames.antt =====
-- The frames of internal/adapter/adapter.go keep a turn sound: the start of a turn, its output and the
-- callbacks of the provider's stream.
use agent_runtime_foundry.Base.Text.{size, append}
use agent_runtime_foundry.Harness.Types.{pos}
use agent_runtime_foundry.Harness.Messages.{HarnessEventFrame}
use agent_runtime_foundry.Adapter.Types.{
  AdapterError, AdapterConfig, AdapterPlatform, TurnState, Outcome, ◌>>=◌, unless_elim,
  max_harness_frame_bytes,
}
use agent_runtime_foundry.Adapter.Frames.{
  new_frame, add_frame, append_frame, append_checked, frame_capacity, started_frame,
  ensure_turn_started, ensure_terminal_started, set_started, flush_output, flush_pending,
  output_frame, flush_best_effort, on_created, write_output, write_text, on_text_delta,
}
use agent_runtime_foundry.Adapter.Sound.Sequence.{
  IsNonterminal, Numbered-append, Prefix-append, length-snoc,
}
use agent_runtime_foundry.Adapter.Sound.Tables.{FramesSound, OpenSound}
use agent_runtime_foundry.Base.Map.{Map}
use agent_runtime_foundry.Base.{
  ℕ, suc, ◌+◌, ◌<◌, ◌≤◌, String, ◌≡◌, inl, inr, refl, sym, subst, ap, Bool, true, false, ◌||◌,
  Bool-cases, if_elim, Option, none, some, List, [], ◌∷◌, ◌++◌, All-append, length, ltb, leb, ◌==◌,
  nat_eq, string_eq, arith,
}

pub clash {ℓ} : {A : Type ℓ} (b : Bool) → b ≡ true → b ≡ false → A
clash b h k = absurd (cc)

pub or_false : (a b : Bool) → (a || b) ≡ false → a ≡ false
or_false true b h = h
or_false false b h = refl

pub size-append : (s u : String) → size (append s u) ≡ size s + size u
unfolding size append
size-append String.[] u = omega arith
size-append (String.◌∷◌ ch s) u = omega (arith, size-append s u)

pub empty_clash {ℓ} : {A : Type ℓ} {s : String} → s ≡ "" → (size s == 0) ≡ false → A
unfolding size
empty_clash {s} e h = absurd (cc (ap (λ (x : String). size x == 0) e))

-- One more nonterminal frame, with its number, where there is room for it.
pub FramesSound-append :
    (c : AdapterConfig) (f0 : List HarnessEventFrame) (done0 : Bool)
    (frames : List HarnessEventFrame) (completed started started' : Bool) (output output' : String)
    (pending pending' : Map String String) (f : HarnessEventFrame)
    → FramesSound c f0 done0 frames completed started output pending
    → completed ≡ false
    → started' ≡ true
    → IsNonterminal f
    → f.seq ≡ pos (suc (length frames))
    → (1 < c.max_events → suc (length frames) < c.max_events)
    → FramesSound c f0 done0 (frames ++ f ∷ []) completed started' output' pending'
FramesSound-append c f0 done0 frames completed started started' output output' pending pending' f s
      op st nt seq room =
    let longer = length-snoc frames f in
    let nonterminal = All-append IsNonterminal frames (f ∷ []) (s.open_frames op) (nt, tt) in
    record {
      numbered = Numbered-append 0 frames f s.numbered (ground (arith, seq));
      open_frames = λ _. nonterminal;
      ended = inl nonterminal;
      room = λ h _. let below = room h in omega (arith, longer);
      bounded = λ h. let below = room h in omega (arith, longer);
      idle = λ _ ns. clash started' st ns;
      grown = Prefix-append f0 frames f s.grown;
      frozen = λ d. clash completed ((s.frozen d).1) op;
    }

-- The same turn with other flags, where they still fit.
pub FramesSound-flags :
    (c : AdapterConfig) (f0 : List HarnessEventFrame) (done0 : Bool)
    (frames : List HarnessEventFrame) (completed started started' : Bool) (output output' : String)
    (pending pending' : Map String String)
    → FramesSound c f0 done0 frames completed started output pending
    → (completed ≡ false → started' ≡ false → (frames ≡ []) × (output' ≡ "") × (pending' ≡ []))
    → FramesSound c f0 done0 frames completed started' output' pending'
FramesSound-flags c f0 done0 frames completed started started' output output' pending pending' s
      idle =
    record {
      numbered = s.numbered;
      open_frames = s.open_frames;
      ended = s.ended;
      room = s.room;
      bounded = s.bounded;
      idle = idle;
      grown = s.grown;
      frozen = s.frozen;
    }

module _ (p : AdapterPlatform) (c : AdapterConfig) (now : ℕ) where
  add_frame-elim :
      (P : Outcome → Type 0) (f : HarnessEventFrame) (t : TurnState)
      → ((e : AdapterError) → P (some e, t))
      → ((n : ℕ)
          → P (
            none,
            record t { frames = t.frames ++ f ∷ []; retained_bytes = t.retained_bytes + n },
          ))
      → (encoded : Option ℕ) → P (add_frame p c now f t encoded)
  unfolding add_frame
  add_frame-elim P f t bad good none = bad _
  add_frame-elim P f t bad good (some n) = elim (Bool-cases (ltb max_harness_frame_bytes (n + 8))) [
    | inl e ↦ rw e (bad _)
    | inr e ↦ rw e (good n)
  ]

  -- A frame is appended, or the turn is as before.
  pub append_frame-elim :
      (P : Outcome → Type 0) (f : HarnessEventFrame) (t : TurnState)
      → ((e : AdapterError) → P (some e, t))
      → ((n : ℕ)
          → P (
            none,
            record t { frames = t.frames ++ f ∷ []; retained_bytes = t.retained_bytes + n },
          ))
      → P (append_frame p c now f t)
  unfolding append_frame
  append_frame-elim P f t bad good = add_frame-elim P f t bad good (p.frame_size f)

  pub frame_capacity-none :
      (t : TurnState) (n : ℕ)
      → frame_capacity p c now t n ≡ none
      → 1 < c.max_events
      → length t.frames + n < c.max_events
  unfolding frame_capacity
  frame_capacity-none t n h k = ground arith

  -- The same for a frame that wants room first.
  pub append_checked-elim :
      (P : Outcome → Type 0) (f : HarnessEventFrame) (t : TurnState)
      → ((e : AdapterError) → P (some e, t))
      → ((n : ℕ)
          → (1 < c.max_events → suc (length t.frames) < c.max_events)
          → P (
            none,
            record t { frames = t.frames ++ f ∷ []; retained_bytes = t.retained_bytes + n },
          ))
      → P (append_checked p c now f t)
  unfolding append_checked
  append_checked-elim P f t bad good =
      unless_elim P (λ e. (some e, t)) (append_frame p c now f t) (frame_capacity p c now t 1)
        (λ e h. bad e)
        λ h.
          append_frame-elim P f t bad
            (λ n. good n (λ k. let room = frame_capacity-none t 1 h k in omega (arith, room)))

  module _ (t0 : TurnState) where
    -- The start of a turn that was not started: its first frame.
    start_grown :
        (t : TurnState) (n : ℕ)
        → OpenSound c t0 t
        → (1 < c.max_events → suc (length t.frames) < c.max_events)
        → OpenSound c t0 (record t {
          frames = t.frames ++ started_frame p c now t ∷ [];
          retained_bytes = t.retained_bytes + n;
          started = true;
        })
    unfolding started_frame new_frame
    start_grown t n (op, frames, tables, counts) room = (
      op,
      FramesSound-append c _ _ t.frames t.completed t.started true t.pending_output _
          t.pending_tools _ (started_frame p c now t) frames op refl (refl, refl) refl room,
      tables,
      counts,
    )

    pub ensure_turn_started-Sound :
        (t : TurnState) → OpenSound c t0 t → OpenSound c t0 (ensure_turn_started p c now t).1
    unfolding ensure_turn_started set_started
    ensure_turn_started-Sound t s =
        if_elim (λ (o : Outcome). OpenSound c t0 o.1) t.started _ _ (λ _. s)
          λ _.
            append_checked-elim (λ o. OpenSound c t0 (o >>= set_started p c now).1)
              (started_frame p c now t) t (λ e. s) (λ n room. start_grown t n s room)

    pub ensure_terminal_started-Sound :
        (t : TurnState) → OpenSound c t0 t → OpenSound c t0 (ensure_terminal_started p c now t)
    unfolding ensure_terminal_started set_started
    ensure_terminal_started-Sound t s =
        if_elim (λ (u : TurnState). OpenSound c t0 u) t.started _ _ (λ _. s)
          λ e.
            let empty : t.frames ≡ [] = (s.1.idle s.0 e).0 in
            append_frame-elim (λ o. OpenSound c t0 (o >>= set_started p c now).1)
              (started_frame p c now t) t (λ e. s)
              (λ n. start_grown t n s (λ h.
                subst (λ (l : List HarnessEventFrame). suc (length l) < c.max_events) (sym empty)
                  h))

    -- Output is pending only in a turn that was started.
    output-started :
        (t : TurnState) → OpenSound c t0 t → (size t.pending_output == 0) ≡ false → t.started ≡ true
    output-started t s h = elim (Bool-cases t.started) [
      | inl e ↦ e
      | inr e ↦ absurd (empty_clash ((s.1.idle s.0 e).1) h)
    ]

    flush_pending-Sound :
        (t : TurnState) → OpenSound c t0 t → OpenSound c t0 (flush_pending p c now t).1
    unfolding flush_pending output_frame new_frame
    flush_pending-Sound t s =
        if_elim (λ (o : Outcome). OpenSound c t0 o.1) (size t.pending_output == 0) _ _ (λ _. s)
          λ e.
            let st = output-started t s e in
            unless_elim (λ (o : Outcome). OpenSound c t0 o.1) _ _ (frame_capacity p c now t 1)
              (λ _ _. s)
              λ h.
                append_frame-elim (λ o. OpenSound c t0 o.1) (output_frame p c now t)
                  (record t { pending_output = "" })
                  (λ err. (
                    s.0,
                    FramesSound-flags c _ _ t.frames t.completed t.started t.started
                        t.pending_output _ t.pending_tools _ s.1 (λ _ ns. clash t.started st ns),
                    s.2,
                    s.3,
                  ))
                  (λ n. (
                    s.0,
                    FramesSound-append c _ _ t.frames t.completed t.started t.started
                        t.pending_output _ t.pending_tools _ (output_frame p c now t) s.1 s.0 st
                        (refl, refl) refl
                        (λ k. let room = frame_capacity-none t 1 h k in omega (arith, room)),
                    s.2,
                    s.3,
                  ))

    pub flush_output-Sound :
        (t : TurnState) → OpenSound c t0 t → OpenSound c t0 (flush_output p c now t).1
    unfolding flush_output
    flush_output-Sound t s = flush_pending-Sound (record t { output_flush_timer = false }) s

    -- Output that cannot be kept is dropped.
    pub drop_output-Sound :
        (t : TurnState) → OpenSound c t0 t → OpenSound c t0 (record t { pending_output = "" })
    drop_output-Sound t s = (
      s.0,
      FramesSound-flags c _ _ t.frames t.completed t.started t.started t.pending_output _
          t.pending_tools _ s.1 (λ op ns. let idle = s.1.idle op ns in (idle.0, refl, idle.2)),
      s.2,
      s.3,
    )

    pub flush_best_effort-Sound :
        (t : TurnState) → OpenSound c t0 t → OpenSound c t0 (flush_best_effort p c now t)
    unfolding flush_best_effort
    flush_best_effort-Sound t s =
        let flushed = flush_output-Sound t s in
        unless_elim (λ (u : TurnState). OpenSound c t0 u) _ _ (flush_output p c now t).0
          (λ _ _. drop_output-Sound (flush_output p c now t).1 flushed) (λ _. flushed)

    -- A step that follows another one.
    pub bind-Sound :
        (o : Outcome) (next : TurnState → Outcome)
        → OpenSound c t0 o.1
        → ((t : TurnState) → OpenSound c t0 t → OpenSound c t0 (next t).1)
        → OpenSound c t0 (o >>= next).1
    bind-Sound (none, t) next s h = h t s
    bind-Sound (some e, t) next s h = s

    pub on_created-Sound :
        (session : String) (t : TurnState)
        → OpenSound c t0 t
        → OpenSound c t0 (on_created p c now session t).1
    unfolding on_created
    on_created-Sound session t s =
        if_elim (λ (o : Outcome). OpenSound c t0 o.1) t.completed _ _ (λ _. s)
          λ _.
            if_elim (λ (o : Outcome). OpenSound c t0 o.1) (session == "") _ _
              (λ _. ensure_turn_started-Sound t s)
              (λ _. ensure_turn_started-Sound (record t { agent_session_id = session }) s)

    -- Text is written to a turn that was started, within its limit.
    written :
        (delta : String) (t : TurnState)
        → OpenSound c t0 t
        → t.started ≡ true
        → size t.text + size delta ≤ c.max_output_bytes
        → OpenSound c t0 (record t {
          text = append t.text delta;
          pending_output = append t.pending_output delta;
        })
    written delta t s st h = (
      s.0,
      FramesSound-flags c _ _ t.frames t.completed t.started t.started t.pending_output _
          t.pending_tools _ s.1 (λ _ ns. clash t.started st ns),
      s.2,
      record {
        same_session = s.3.same_session;
        text_bounded = let sum = size-append t.text delta in omega (arith, sum);
        calls_bounded = s.3.calls_bounded;
        bytes_bounded = s.3.bytes_bounded;
      },
    )

    write_text-Sound :
        (delta : String) (t : TurnState)
        → OpenSound c t0 t
        → t.started ≡ true
        → OpenSound c t0 (write_text p c now delta t).1
    unfolding write_text write_output
    write_text-Sound delta t s st =
        if_elim (λ (o : Outcome). OpenSound c t0 o.1)
          (ltb c.max_output_bytes (size t.text + size delta)) _ _ (λ _. s)
          λ small.
            let grown = written delta t s st (ground (arith, small)) in
            if_elim (λ (o : Outcome). OpenSound c t0 o.1)
              (leb 4096 (size t.pending_output + size delta)) _ _ (λ _. flush_output-Sound _ grown)
              (λ _. grown)

    -- After ensureTurnStartedLocked without an error the turn is started.
    pub ensure-started :
        (t : TurnState)
        → (ensure_turn_started p c now t).0 ≡ none
        → (ensure_turn_started p c now t).1.started ≡ true
    unfolding ensure_turn_started set_started
    ensure-started t =
        if_elim (λ (o : Outcome). o.0 ≡ none → o.1.started ≡ true) t.started _ _ (λ e _. e)
          λ _.
            append_checked-elim
              (λ o.
                (o >>= set_started p c now).0 ≡ none → (o >>= set_started p c now).1.started ≡ true)
              (started_frame p c now t) t (λ e h. absurd (cc)) (λ n room h. refl)

    after_start :
        (o : Outcome) (next : TurnState → Outcome)
        → OpenSound c t0 o.1
        → (o.0 ≡ none → o.1.started ≡ true)
        → ((t : TurnState) → OpenSound c t0 t → t.started ≡ true → OpenSound c t0 (next t).1)
        → OpenSound c t0 (o >>= next).1
    after_start (none, t) next s st h = h t s (st refl)
    after_start (some e, t) next s st h = s

    pub on_text_delta-Sound :
        (delta : String) (t : TurnState)
        → OpenSound c t0 t
        → OpenSound c t0 (on_text_delta p c now delta t).1
    unfolding on_text_delta
    on_text_delta-Sound delta t s =
        if_elim (λ (o : Outcome). OpenSound c t0 o.1) t.completed _ _ (λ _. s)
          λ _.
            after_start (ensure_turn_started p c now t) (write_text p c now delta)
              (ensure_turn_started-Sound t s) (ensure-started t) (write_text-Sound delta)
