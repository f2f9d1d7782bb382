-- ===== src/Jwt.antt =====
-- What the program asks of the jsonwebtoken and serde_json crates: operations that the model takes
-- as arguments, and the settings and results that pass between them and the program.
use instance_lib.Prelude.{ℕ, Bool, Option, List, Bytes}

pub data Algorithm : Type 0 where
  rs256 es256 : Algorithm
  other : ℕ → Algorithm

pub record Header : Type 0 where
  pub alg : Algorithm
  pub kid : Option Bytes
  pub x5c : Option (List Bytes)

-- The settings of `Validation` that the program touches.
pub record Validation : Type 0 where
  pub algorithm : Algorithm
  pub iss : Option (List Bytes)
  pub aud : Option (List Bytes)
  pub required_spec_claims : List Bytes
  pub leeway : ℕ
  pub validate_exp : Bool
  pub validate_aud : Bool

-- A JSON value as the program looks at it.
pub data Shape (Value : Type 0) : Type 0 where
  text : Bytes → Shape Value
  array : List Value → Shape Value
  another : Shape Value

-- The claims of an Apple identity token.
pub record AppleClaims (Value : Type 0) : Type 0 where
  pub iss : Bytes
  pub sub : Bytes
  pub aud : Value
  pub exp : ℕ
  pub iat : ℕ

-- The payload of a StoreKit transaction.
pub record StoreKitPayload : Type 0 where
  pub bundle_id : Bytes
  pub original_transaction_id : Bytes
  pub transaction_id : Bytes
  pub product_id : Bytes
  pub app_account_token : Option Bytes

pub record Jwt : Type 1 where
  pub Key : Type 0
  pub Value : Type 0
  pub shape : Value → Shape Value
  pub decode_header : Bytes → Option Header
  -- `Validation::new`.
  pub new_validation : Algorithm → Validation
  pub from_rsa_components : Bytes → Bytes → Option Key
  pub from_ec_der : Bytes → Key
  pub decode_apple : Bytes → Key → Validation → Option (AppleClaims Value)
  pub decode_storekit : Bytes → Key → Validation → Option StoreKitPayload
