-- ===== src/Adapter/Tools.antt =====
-- The tools of a turn (internal/adapter/adapter.go): which of them Orka supplied, of which class, and
-- the schemas that go to the provider.
use agent_runtime_foundry.Base.Text.{size, trim_space, append, equal_fold}
use agent_runtime_foundry.Foundry.Strings.{function_name_valid}
use agent_runtime_foundry.Foundry.Responses.{ToolSchema}
use agent_runtime_foundry.Harness.Types.{ToolDefinition, StartTurnRequest}
use agent_runtime_foundry.Adapter.Types.{AdapterError, AdapterConfig, AdapterPlatform}
use agent_runtime_foundry.Adapter.Checks.{plain_error}
use agent_runtime_foundry.Base.{
  String, Bool, not, ◌&&◌, ◌||◌, Option, none, some, List, [], ◌∷◌, any, ltb, ◌==◌, nat_eq,
  string_eq, if◌then◌else◌,
}

-- foundryToolClassSupported
unfoldable pub tool_class_supported : String → Bool
tool_class_supported class = class == "read" || class == "write"

-- foundryToolAllowed
unfoldable pub tool_allowed : List ToolDefinition → String → Bool
unfolding tool_class_supported
tool_allowed definitions name =
    any (λ d. tool_class_supported d.brokered_class && trim_space d.name == trim_space name)
      definitions

-- foundryToolClass
unfoldable pub tool_class : List ToolDefinition → String → String
tool_class [] name = ""
tool_class (d ∷ definitions) name =
    if trim_space d.name == trim_space name then d.brokered_class else tool_class definitions name

tool_schema : ToolDefinition → ToolSchema
tool_schema d = record {
  type_name = "function";
  name = trim_space d.name;
  description = trim_space d.description;
  parameters =
      if ltb 0 (size d.parameters)
      then d.parameters
      else "{\"type\":\"object\",\"additionalProperties\":true}";
}

tool_schemas_of : List ToolDefinition → List ToolSchema
unfolding tool_schema tool_class_supported
tool_schemas_of [] = []
tool_schemas_of (d ∷ definitions) =
    let rest = tool_schemas_of definitions in
    if not (tool_class_supported d.brokered_class) || trim_space d.name == ""
    then rest
    else tool_schema d ∷ rest

-- foundryToolSchemas
unfoldable pub tool_schemas : StartTurnRequest → List ToolSchema
unfolding tool_schemas_of
tool_schemas request =
    if not (request.tool_execution_mode == "brokered")
    then []
    else tool_schemas_of request.input.tools

-- providerToolSchemas
unfoldable pub provider_tool_schemas : AdapterConfig → StartTurnRequest → List ToolSchema
unfolding tool_schemas
provider_tool_schemas c request =
    if equal_fold (trim_space c.tool_schema_mode) "provider-static"
    then []
    else tool_schemas request

-- validateConfiguredToolDefinitions
unfoldable pub validate_configured_tools :
    AdapterPlatform → AdapterConfig → List ToolDefinition → Option AdapterError
validate_configured_tools p c [] = none
validate_configured_tools p c (d ∷ definitions) =
    if not (any (λ class. class == d.brokered_class) c.brokered_tool_classes)
    then plain_error (
        append "foundry brokered tool class " (append (p.quote d.brokered_class) " is not enabled"))
    else validate_configured_tools p c definitions

-- One round of validateFoundryToolDefinitions, with the names of the rounds before.
definition_error : AdapterPlatform → List String → ToolDefinition → Option AdapterError
unfolding tool_class_supported
definition_error p seen d =
    if not (function_name_valid (trim_space d.name))
    then plain_error (
        append "foundry tool name " (
          append (p.quote (trim_space d.name))
            " must contain 1-128 letters, numbers, underscores, or hyphens"))
    else if any (λ name. name == trim_space d.name) seen
    then plain_error (append "duplicate Foundry tool name " (p.quote (trim_space d.name)))
    else if not (tool_class_supported d.brokered_class)
    then plain_error (
        append "unsupported Foundry brokered tool class "
          (append (p.quote d.brokered_class) (append " for tool " (p.quote d.name))))
    else if ltb 0 (size d.parameters) && not (p.is_json_object d.parameters)
    then plain_error (
        append "foundry tool "
          (append (p.quote (trim_space d.name)) " parameters must be a JSON object"))
    else none

definitions_error : AdapterPlatform → List String → List ToolDefinition → Option AdapterError
unfolding definition_error
definitions_error p seen [] = none
definitions_error p seen (d ∷ definitions) =
    let rest = definitions_error p (trim_space d.name ∷ seen) definitions in
    elim (definition_error p seen d) [ some e ↦ some e | none ↦ rest ]

-- validateFoundryToolDefinitions
unfoldable pub validate_tool_definitions :
    AdapterPlatform → List ToolDefinition → Option AdapterError
unfolding definitions_error
validate_tool_definitions p definitions = definitions_error p [] definitions
