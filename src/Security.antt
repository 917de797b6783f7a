-- ===== src/Security.antt =====
-- security.py, and the settings of config.py that it reads. The time comes as an argument, in whole
-- seconds, to which PyJWT truncates the times of a token.
use fastapi_task_api.Base.{
  ℕ, ◌+◌, ◌*◌, Option, none, some, Result, ok, err, invalid_token_error, [], ◌∷◌,
}
use fastapi_task_api.Base.Text.{Text}
use fastapi_task_api.Accounts.{Jwt}

-- `jwt_secret_key`, `jwt_algorithm` and `access_token_expire_minutes`, which is at least 1
pub record TokenSettings : Type 0 where
  pub jwt_secret_key : Text
  pub jwt_algorithm : Text
  pub access_token_expire_minutes : ℕ

-- `expires_delta`, or the default
abbrev pub lifetime : TokenSettings → Option ℕ → ℕ
lifetime settings none = settings.access_token_expire_minutes * 60
lifetime settings (some expires_delta) = expires_delta

-- What follows `jwt.decode`; `none` is `InvalidTokenError`, and a subject that is no text is `none`.
abbrev pub read_subject : Option (Option Text) → Result Text
read_subject none = err invalid_token_error
read_subject (some none) = err invalid_token_error
read_subject (some (some [])) = err invalid_token_error
read_subject (some (some (c ∷ subject))) = ok (c ∷ subject)

module _ (jwt : Jwt) where
  unfoldable pub create_access_token : ℕ → Text → TokenSettings → Option ℕ → Result Text
  create_access_token issued_at subject settings expires_delta =
      jwt.encode
        (record {
          sub = subject;
          iat = issued_at;
          exp = issued_at + lifetime settings expires_delta;
        })
        settings.jwt_secret_key settings.jwt_algorithm

  unfoldable pub decode_access_token : ℕ → Text → TokenSettings → Result Text
  decode_access_token now token settings =
      read_subject (jwt.decode now token settings.jwt_secret_key settings.jwt_algorithm)
