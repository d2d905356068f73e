-- ===== src/Llm/Options.antt =====
-- llm/options.go, and the configuration that a call of llm/llm.go or llm/durable_call.go builds. The
-- options that are floats or tools are left out.
use romancy.Base.{String, ℕ, Option, none, some, List, [], ◌∷◌}

-- `config`; an empty text or list, or none, is what is not set.
pub record Config : Type 0 where
  pub provider : String
  pub model : String
  pub max_tokens : Option ℕ
  pub top_k : Option ℕ
  pub seed : Option ℕ
  pub system_message : String
  pub stop_sequences : List String

abbrev pub Setting : Type 0
Setting = Config → Config

abbrev pub new_config : Config
new_config = record {
  provider = "";
  model = "";
  max_tokens = none;
  top_k = none;
  seed = none;
  system_message = "";
  stop_sequences = [];
}

unfoldable pub apply_options : List Setting → Config → Config
apply_options [] c = c
apply_options (s ∷ ss) c = apply_options ss (s c)

abbrev pub with_provider : String → Setting
with_provider x c = record c { provider = x }

abbrev pub with_model : String → Setting
with_model x c = record c { model = x }

abbrev pub with_max_tokens : ℕ → Setting
with_max_tokens x c = record c { max_tokens = some x }

abbrev pub with_top_k : ℕ → Setting
with_top_k x c = record c { top_k = some x }

abbrev pub with_seed : ℕ → Setting
with_seed x c = record c { seed = some x }

abbrev pub with_system_message : String → Setting
with_system_message x c = record c { system_message = x }

abbrev pub with_stop_sequences : List String → Setting
with_stop_sequences x c = record c { stop_sequences = x }

-- `buildConfig` of a call and of a durable call: the defaults of the app, the options of the
-- definition, then those of the call.
unfoldable pub build_config : List Setting → List Setting → List Setting → Config
unfolding apply_options
build_config defaults own per_call =
    apply_options per_call (apply_options own (apply_options defaults new_config))
