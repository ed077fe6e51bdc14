-- ===== src/Broker/Reserve/Answered.antt =====
-- The tool outputs of a later round: each answers a call of the previous response that no output before
-- it answers, and reaches the provider under the provider's call id.
use agent_runtime_foundry.Base.Map.{Map, get, insert, get-insert_self, get-insert_ne}
use agent_runtime_foundry.Foundry.Responses.{InputField, InputItem, object, not_object}
use agent_runtime_foundry.Broker.Types.{ok, ok-injective, bind-ok}
use agent_runtime_foundry.Broker.Reserve.{field_text, translate_item, translate_items}
use agent_runtime_foundry.Base.{
  String, ◌≡◌, ◌≢◌, ◌∙◌, sym, subst, Bool, true, none, some, List, [], ◌∷◌, All, arith, string_eq,
  nat_eq, Option-cases, inl, inr,
}

-- One output and what it becomes.
abbrev pub Answers : Map String String → String → InputItem → InputItem → Type 0
Answers calls call (object item) out =
    (remote : String) × (get call calls ≡ some remote)
    × (field_text (get "call_id" item) ≡ some call)
    × (out ≡ object (insert "call_id" (InputField.text remote) item))
Answers calls call not_object out = ⊥

answered_call :
    (calls : Map String String) (seen : Map String Bool) (item : Map String InputField)
    (call : String) (out : InputItem)
    → translate_item calls seen (object item) ≡ ok (call, out)
    → field_text (get "call_id" item) ≡ some call
unfolding translate_item
answered_call calls seen item call out e = ground arith

unseen_call :
    (calls : Map String String) (seen : Map String Bool) (item : InputItem) (call : String)
    (out : InputItem)
    → translate_item calls seen item ≡ ok (call, out)
    → get call seen ≡ none
unfolding translate_item
unseen_call calls seen (object item) call out e = ground arith
unseen_call calls seen not_object call out e = cc

owned_call :
    (calls : Map String String) (seen : Map String Bool) (item : Map String InputField)
    (call : String) (out : InputItem)
    → translate_item calls seen (object item) ≡ ok (call, out)
    → get call calls ≢ none
unfolding translate_item
owned_call calls seen item call out e missing = ground arith

sent_item :
    (calls : Map String String) (seen : Map String Bool) (item : Map String InputField)
    (call remote : String) (out : InputItem)
    → translate_item calls seen (object item) ≡ ok (call, out)
    → get call calls ≡ some remote
    → out ≡ object (insert "call_id" (InputField.text remote) item)
unfolding translate_item
sent_item calls seen item call remote out e there = ground arith

not_an_object :
    (calls : Map String String) (seen : Map String Bool) (call : String) (out : InputItem)
    → translate_item calls seen not_object ≢ ok (call, out)
unfolding translate_item
not_an_object calls seen call out e = cc

translate_item-Answers :
    (calls : Map String String) (seen : Map String Bool) (item : InputItem) (call : String)
    (out : InputItem)
    → translate_item calls seen item ≡ ok (call, out)
    → Answers calls call item out
translate_item-Answers calls seen not_object call out e = not_an_object calls seen call out e
translate_item-Answers calls seen (object item) call out e = elim (Option-cases (get call calls)) [
  | inl missing ↦ elim (owned_call calls seen item call out e missing) [ ]
  | inr (remote, there) ↦ (
    remote,
    there,
    answered_call calls seen item call out e,
    sent_item calls seen item call remote out e there,
  )
]

-- The outputs one by one, with the calls that they answer.
abbrev pub AnswersEach : Map String String → List String → List InputItem → List InputItem → Type 0
AnswersEach calls [] [] [] = Unit
AnswersEach calls (call ∷ ids) (item ∷ items) (out ∷ outs) =
    Answers calls call item out × AnswersEach calls ids items outs
AnswersEach calls _ _ _ = ⊥

abbrev Other : String → String → Type 0
Other a b = b ≢ a

abbrev pub NoneTwice : List String → Type 0
NoneTwice [] = Unit
NoneTwice (a ∷ rest) = All (Other a) rest × NoneTwice rest

abbrev Unseen : Map String Bool → String → Type 0
Unseen seen id = get id seen ≡ none

-- A call that is not in the larger set is another one, and not in the smaller set.
seen_before :
    (seen : Map String Bool) (call : String) (ids : List String)
    → All (Unseen (insert call true seen)) ids
    → All (Other call) ids × All (Unseen seen) ids
seen_before seen call [] h = (tt, tt)
seen_before seen call (id ∷ ids) (first, later) =
    let (others, unseen) = seen_before seen call ids later in
    let differ : id ≢ call = λ same. cc (
      subst (λ k. get k (insert call true seen) ≡ none) same first,
      get-insert_self call true seen,
    ) in
    (
      (differ, others),
      (sym (get-insert_ne call id true seen (λ same. differ (sym same))) ∙ first, unseen),
    )

-- An accepted list of tool outputs answers calls of the previous response, no call twice and none of the
-- calls that were seen before; each output goes out under the provider's id of its call and is otherwise
-- as it came.
pub translate_items-AnswersEach :
    (calls : Map String String) (inputs outs : List InputItem) (seen : Map String Bool)
    → translate_items calls seen inputs ≡ ok outs
    → (ids : List String) × AnswersEach calls ids inputs outs
      × NoneTwice ids
      × All (λ id. get id seen ≡ none) ids
unfolding translate_items
translate_items-AnswersEach calls [] outs seen e =
    ([], subst (AnswersEach calls [] []) (ok-injective e) tt, tt, tt)
translate_items-AnswersEach calls (input ∷ inputs) outs seen e =
    let ((call, out), first, e1) = bind-ok (translate_item calls seen input) _ e in
    let (rest, later, e2) = bind-ok (translate_items calls (insert call true seen) inputs) _ e1 in
    let (ids, each, twice, unseen) =
      translate_items-AnswersEach calls inputs rest (insert call true seen) later in
    let (others, unseen') = seen_before seen call ids unseen in
    let all_each : AnswersEach calls (call ∷ ids) (input ∷ inputs) (out ∷ rest) =
      (translate_item-Answers calls seen input call out first, each) in
    (
      call ∷ ids,
      subst (AnswersEach calls (call ∷ ids) (input ∷ inputs)) (ok-injective e2) all_each,
      (others, twice),
      (unseen_call calls seen input call out first, unseen'),
    )
