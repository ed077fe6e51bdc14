-- ===== src/Adapter/Sound/Tables.antt =====
-- The tables of tool calls of a turn, and what each part of the state of a turn satisfies.
use agent_runtime_foundry.Base.Text.{size}
use agent_runtime_foundry.Base.Map.{Map, get, keys}
use agent_runtime_foundry.Harness.Types.{ToolCallResult}
use agent_runtime_foundry.Harness.Messages.{HarnessEventFrame}
use agent_runtime_foundry.Adapter.Types.{AdapterConfig, TurnState}
use agent_runtime_foundry.Adapter.Sound.Sequence.{Numbered, IsNonterminal, Ended, Prefix}
use agent_runtime_foundry.Base.{
  ℕ, ◌≤◌, ◌<◌, String, ◌≡◌, Bool, true, false, any, some, is_some, List, [], ◌∷◌, length, All, ◌==◌,
  string_eq,
}

abbrev pub has : String → List String → Bool
has k l = any (λ s. s == k) l

-- No text occurs twice.
abbrev pub Distinct : List String → Type 0
Distinct [] = Unit
Distinct (s ∷ l) = (has s l ≡ false) × Distinct l

-- The frames of a turn; `f0` are those of an earlier state, which was over if `done0` is true.
pub record FramesSound (c : AdapterConfig) (f0 : List HarnessEventFrame) (done0 : Bool)
    (frames : List HarnessEventFrame) (completed started : Bool) (pending_output : String)
    (pending : Map String String) : Type 0 where
  pub numbered : Numbered 0 frames
  pub open_frames : completed ≡ false → All IsNonterminal frames
  pub ended : Ended frames
  pub room : 1 < c.max_events → completed ≡ false → length frames < c.max_events
  pub bounded : 1 < c.max_events → length frames ≤ c.max_events
  pub idle :
      completed ≡ false → started ≡ false → (frames ≡ []) × (pending_output ≡ "") × (pending ≡ [])
  pub grown : Prefix f0 frames
  pub frozen : done0 ≡ true → (frames ≡ f0) × (completed ≡ true)

-- The tables of a turn; `s0` are the digests that were submitted in an earlier state.
pub record TablesSound (s0 : Map String String) (pending digests ids : Map String String)
    (buffered : Map String ToolCallResult) (buffered_digests submitted : Map String String)
    : Type 0 where
  pub same_digests : (k : String) → is_some (get k digests) ≡ is_some (get k pending)
  pub same_ids : (k : String) → is_some (get k ids) ≡ is_some (get k pending)
  pub same_buffered : (k : String) → is_some (get k buffered_digests) ≡ is_some (get k buffered)
  pub buffered_pending :
      (k : String) → is_some (get k buffered) ≡ true → is_some (get k pending) ≡ true
  pub not_pending :
      (k : String) → is_some (get k submitted) ≡ true → is_some (get k pending) ≡ false
  pub kept : (k d : String) → get k s0 ≡ some d → get k submitted ≡ some d
  pub distinct_pending : Distinct (keys pending)
  pub distinct_buffered : Distinct (keys buffered)

-- The counts of a turn, and its runtime session. A limit of zero is none.
pub record CountsSound (c : AdapterConfig) (session0 session text : String) (count bytes : ℕ)
    : Type 0 where
  pub same_session : session ≡ session0
  pub text_bounded : size text ≤ c.max_output_bytes
  pub calls_bounded : 0 < c.max_brokered_calls → count ≤ c.max_brokered_calls
  pub bytes_bounded : 0 < c.max_brokered_turn_bytes → bytes ≤ c.max_brokered_turn_bytes

abbrev pub FramesOf : AdapterConfig → TurnState → TurnState → Type 0
FramesOf c t0 t =
    FramesSound c t0.frames t0.completed t.frames t.completed t.started t.pending_output
      t.pending_tools

abbrev pub TablesOf : TurnState → TurnState → Type 0
TablesOf t0 t =
    TablesSound t0.submitted_result_digests t.pending_tools t.pending_call_digests
      t.provider_call_ids t.buffered_results t.buffered_result_digests t.submitted_result_digests

abbrev pub CountsOf : AdapterConfig → TurnState → TurnState → Type 0
CountsOf c t0 t =
    CountsSound c t0.request.runtime_session_id t.request.runtime_session_id t.text
      t.brokered_call_count t.brokered_state_bytes

abbrev pub TurnSound : AdapterConfig → TurnState → TurnState → Type 0
TurnSound c t0 t = FramesOf c t0 t × TablesOf t0 t × CountsOf c t0 t

-- A sound turn that is not over.
abbrev pub OpenSound : AdapterConfig → TurnState → TurnState → Type 0
OpenSound c t0 t = (t.completed ≡ false) × FramesOf c t0 t × TablesOf t0 t × CountsOf c t0 t

-- The digest of a submitted result stays.
abbrev pub Submitted : Map String String → Map String String → Type 0
Submitted old new = (k d : String) → get k old ≡ some d → get k new ≡ some d
