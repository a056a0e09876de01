-- ===== src/Gemini/Environment.antt =====
-- cmd/model.go, and `New` of internal/model/gemini/gemini.go: the model from the environment.
use kube_cure.Prelude.{ℕ, ℤ, pos, negsuc, Option, none, some, ◌++◌, if◌then◌else◌}
use kube_cure.Text.{Text, codes, is_empty, quote}
use kube_cure.Text.Numbers.{atoi}
use kube_cure.Agent.Model as agent
use kube_cure.Agent.Model.{Result, ok, err}
use kube_cure.Agent.Types.{Pricing}
use kube_cure.Gemini.Convert.{Codec, ◌>>=◌, wrapped}
use kube_cure.Gemini.Generate.{Client, as_model}

unfoldable pub env_api_key : Text
env_api_key = codes "GEMINI_API_KEY"

unfoldable pub env_model : Text
env_model = codes "KUBECURE_MODEL"

unfoldable pub env_price_input : Text
env_price_input = codes "KUBECURE_PRICE_INPUT_PER_MILLION_MICROUSD"

unfoldable pub env_price_output : Text
env_price_output = codes "KUBECURE_PRICE_OUTPUT_PER_MILLION_MICROUSD"

unfoldable pub default_model : Text
default_model = codes "gemini-2.5-flash"

unfoldable pub price_error : Text → Text → Text
price_error name raw = name ++ (codes " must be a non negative integer, got " ++ quote raw)

unfoldable pub price_of : Text → Text → Option ℤ → Result Text ℕ
price_of name raw none = err (price_error name raw)
price_of name raw (some (negsuc n)) = err (price_error name raw)
price_of name raw (some (pos n)) = ok n

-- `new_client` is genai.NewClient on a key.
module _ {W : Type 0} (codec : Codec) (new_client : Text → Result Text (Client W)) where
  unfoldable pub new_gemini : Text → Text → Result Text (agent.Model W)
  unfolding wrapped
  new_gemini key name =
      if is_empty key
      then err (codes "gemini: an API key is required")
      else if is_empty name
      then err (codes "gemini: a model name is required")
      else (do
        client ← wrapped (codes "gemini: building client: ") (new_client key)
        ok (as_model codec client name))

-- `env` is os.Getenv.
module _ (env : Text → Text) where
  unfoldable pub price_from_env : Text → Result Text ℕ
  unfolding price_of
  price_from_env name =
      let raw = env name in if is_empty raw then ok 0 else price_of name raw (atoi raw)

  unfoldable pub model_name : Text
  model_name = let name = env env_model in if is_empty name then default_model else name

  module _ {W : Type 0} (codec : Codec) (new_client : Text → Result Text (Client W)) where
    -- Without a key there is no model, and that is not an error.
    unfoldable pub model_from_env : Result Text (Option (agent.Model W) × Pricing)
    unfolding price_from_env new_gemini
    model_from_env =
        let key = env env_api_key in
        if is_empty key
        then ok (none, record { input_micro_usd_per_million = 0; output_micro_usd_per_million = 0 })
        else (do
          input ← price_from_env env_price_input
          output ← price_from_env env_price_output
          m ← new_gemini codec new_client key model_name
          ok (
            some m,
            record { input_micro_usd_per_million = input; output_micro_usd_per_million = output },
          ))
