-- ===== src/Auth/Login.antt =====
-- backend/src/modules/auth/login-throttle/login-throttle.service.ts, `LoginThrottleService`, and the
-- login of backend/src/modules/auth/auth.service.ts. An e-mail, an IP address, a password and its
-- hash are numbers: only equality depends on them, and bcrypt, which compares a password with a
-- hash, is a parameter. The attempts are a table with the newest first, dates are milliseconds, and
-- a login has one clock.
use e_commerce_titulo_interm.Common.{
  ℕ, ◌+◌, ◌*◌, Bool, true, false, Option, none, some, List, [], ◌∷◌, ◌&&◌, not, ◌==◌, leb, find,
  if◌then◌else◌, Result, ok, err, ◌>>◌, throw_if,
}
use e_commerce_titulo_interm.Errors.{
  ServiceError, account_locked, ip_locked, invalid_credentials, unverified_account,
  unavailable_account,
}

-- `LoginAttempt`
pub record LoginAttempt : Type 0 where
  pub email : ℕ
  pub ip_address : ℕ
  pub success : Bool
  pub created_at : ℕ

-- The settings that the constructor reads.
pub record ThrottleConfig : Type 0 where
  pub account_max_attempts : ℕ
  pub account_window_min : ℕ
  pub ip_max_attempts : ℕ
  pub ip_window_min : ℕ

-- `UserStatus`
pub data UserStatus : Type 0 where
  pendiente_verificacion activa deshabilitada suspendida : UserStatus

-- The columns of `User` that the login reads.
pub record Account : Type 0 where
  pub id : ℕ
  pub email : ℕ
  pub password_hash : ℕ
  pub status : UserStatus

-- `createdAt` is not before the start of the window: now, less its minutes.
abbrev pub in_window : ℕ → ℕ → LoginAttempt → Bool
in_window window_min now a = leb now (a.created_at + window_min * 60000)

-- `repo.count`
unfoldable pub count_where : (LoginAttempt → Bool) → List LoginAttempt → ℕ
count_where test [] = 0
count_where test (a ∷ log) = (if test a then 1 else 0) + count_where test log

abbrev pub account_failure : ThrottleConfig → ℕ → ℕ → LoginAttempt → Bool
account_failure config email now a =
    a.email == email && not a.success && in_window config.account_window_min now a

abbrev pub ip_failure : ThrottleConfig → ℕ → ℕ → LoginAttempt → Bool
ip_failure config ip now a =
    a.ip_address == ip && not a.success && in_window config.ip_window_min now a

-- `assertNotLocked`
unfoldable pub assert_not_locked :
    ThrottleConfig → ℕ → ℕ → ℕ → List LoginAttempt → Result ServiceError Unit
assert_not_locked config email ip now log = do
  throw_if (leb config.account_max_attempts (count_where (account_failure config email now) log))
      account_locked
  throw_if (leb config.ip_max_attempts (count_where (ip_failure config ip now) log)) ip_locked

-- `recordAttempt`
abbrev pub record_attempt : ℕ → ℕ → ℕ → Bool → List LoginAttempt → List LoginAttempt
record_attempt now email ip success log =
    record { email = email; ip_address = ip; success = success; created_at = now } ∷ log

-- What `login` answers for a user with the right password, until it issues the tokens.
abbrev pub require_active : Account → Result ServiceError Account
require_active account = elim account.status [
  | pendiente_verificacion ↦ err unverified_account
  | activa ↦ ok account
  | deshabilitada ↦ err unavailable_account
  | suspendida ↦ err unavailable_account
]

-- The user of an e-mail, if the password is theirs.
abbrev pub verified : (ℕ → ℕ → Bool) → List Account → ℕ → ℕ → Option Account
verified compare users email password = elim (find (λ (u : Account). u.email == email) users) [
  | none ↦ none
  | some u ↦ if compare password u.password_hash then some u else none
]

-- `login`, from the user found on.
abbrev pub login_as :
    ℕ → ℕ → ℕ → Option Account → List LoginAttempt → List LoginAttempt × Result ServiceError Account
login_as now email ip none log = (record_attempt now email ip false log, err invalid_credentials)
login_as now email ip (some account) log = elim (require_active account) [
  | err e ↦ (log, err e)
  | ok u ↦ (record_attempt now email ip true log, ok u)
]

-- `login`, from the check of the throttle on.
abbrev pub login_checked :
    Result ServiceError Unit
    → ℕ
    → ℕ
    → ℕ
    → Option Account
    → List LoginAttempt
    → List LoginAttempt × Result ServiceError Account
login_checked (err e) now email ip user log = (log, err e)
login_checked (ok done) now email ip user log = login_as now email ip user log

-- `login`: the attempts that it leaves, and the user for whom it issues tokens.
unfoldable pub login :
    ThrottleConfig
    → (ℕ → ℕ → Bool)
    → List Account
    → ℕ
    → ℕ
    → ℕ
    → ℕ
    → List LoginAttempt
    → List LoginAttempt × Result ServiceError Account
login config compare users now email password ip log =
    let user = verified compare users email password in
    login_checked (assert_not_locked config email ip now log) now email ip user log
