-- ===== src/Gemini/Configured.antt =====
-- cmd/model.go: the model that a complete environment gives.
use kube_cure.Prelude.{ℕ, ◌<◌, pos, ◌≡◌, ◌≢◌, refl, false, some, [], ◌∷◌, if◌then◌else◌}
use kube_cure.Text.{Text, is_empty, show_nat}
use kube_cure.Text.Numbers.{show_int, int64_limit}
use kube_cure.Text.Decimal.{show_nat-ne-nil, atoi-show_int}
use kube_cure.Agent.Model.{Result, ok}
use kube_cure.Gemini.Convert.{Codec}
use kube_cure.Gemini.Generate.{Client, as_model}
use kube_cure.Gemini.Environment.{
  env_api_key, env_model, env_price_input, env_price_output, default_model, price_of,
  price_from_env, model_name, model_from_env,
}

is_empty-show_nat : (n : ℕ) → is_empty (show_nat n) ≡ false
is_empty-show_nat n = given (show_nat n) (show_nat-ne-nil n)
  where
    given : (s : Text) → s ≢ [] → is_empty s ≡ false
    given [] h = absurd (h refl)
    given (c ∷ s) h = refl

price_from_env-show_nat :
    (env : Text → Text) (name : Text) (n : ℕ)
    → n < int64_limit
    → env name ≡ show_nat n
    → price_from_env env name ≡ ok n
unfolding price_from_env price_of show_int
price_from_env-show_nat env name n h e = rw (e, is_empty-show_nat n, atoi-show_int (pos n) h) refl

is_empty-model_name : (env : Text → Text) → is_empty (model_name env) ≡ false
unfolding model_name default_model
is_empty-model_name env = named (env env_model)
  where
    named : (name : Text) → is_empty (if is_empty name then default_model else name) ≡ false
    named [] = refl
    named (c ∷ s) = refl

-- With a key, and with two prices in the environment as decimal texts of int64 values, the model is
-- Gemini under the configured name, or gemini-2.5-flash without one, and the prices are read back
-- exactly, provided that the client can be built.
pub model_from_env_roundtrip :
    {W : Type 0} (env : Text → Text) (codec : Codec) (new_client : Text → Result Text (Client W))
    (client : Client W) (input output : ℕ)
    → is_empty (env env_api_key) ≡ false
    → new_client (env env_api_key) ≡ ok client
    → env env_price_input ≡ show_nat input
    → env env_price_output ≡ show_nat output
    → input < int64_limit
    → output < int64_limit
    → model_from_env env codec new_client
      ≡ ok (
        some (as_model codec client (model_name env)),
        record { input_micro_usd_per_million = input; output_micro_usd_per_million = output },
      )
unfolding model_from_env
model_from_env_roundtrip env codec new_client client input output given built in_price out_price h
      k =
    rw
      (
        given,
        price_from_env-show_nat env env_price_input input h in_price,
        price_from_env-show_nat env env_price_output output k out_price,
        is_empty-model_name env,
        built,
      )
      refl
