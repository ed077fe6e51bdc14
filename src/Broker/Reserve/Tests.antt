-- ===== src/Broker/Reserve/Tests.antt =====
-- Two tool outputs of a later round.
use agent_runtime_foundry.Base.Map.{Map, get, insert}
use agent_runtime_foundry.Base.Text.{size, utf8_size}
use agent_runtime_foundry.Foundry.Responses.{InputField, InputItem, object}
use agent_runtime_foundry.Broker.Types.{ok}
use agent_runtime_foundry.Broker.Reserve.{translate_item, translate_items}
use agent_runtime_foundry.Broker.Reserve.Answered.{
  AnswersEach, NoneTwice, translate_items-AnswersEach,
}
use agent_runtime_foundry.Base.{Bool, String, ◌≡◌, refl, none, List, [], ◌∷◌, All, string_eq}

abbrev output_item : String → InputItem
output_item call = object (
    ("type", InputField.text "function_call_output")
    ∷ ("call_id", InputField.text call)
    ∷ ("output", InputField.text "42")
    ∷ [])

abbrev previous_calls : Map String String
previous_calls = ("fc_1", "call-1") ∷ ("fc_2", "call-2") ∷ []

abbrev inputs : List InputItem
inputs = output_item "fc_2" ∷ output_item "fc_1" ∷ []

abbrev sent : List InputItem
sent = output_item "call-2" ∷ output_item "call-1" ∷ []

abbrev no_calls : Map String Bool
no_calls = []

sent_ok : translate_items previous_calls no_calls inputs ≡ ok sent
unfolding translate_items translate_item get insert size utf8_size
sent_ok = refl

translate_items-AnswersEach_example :
    (ids : List String) × AnswersEach previous_calls ids inputs sent
    × NoneTwice ids
    × All (λ id. get id no_calls ≡ none) ids
translate_items-AnswersEach_example =
    translate_items-AnswersEach previous_calls inputs sent no_calls sent_ok
