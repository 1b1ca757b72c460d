-- ===== src/Auth/Attempts.antt =====
-- Sequences of logins, and the failures that the throttle lets into the table of attempts.
use e_commerce_titulo_interm.Common.{
  ℕ, ◌≤◌, ◌≡◌, sym, subst, inl, inr, Bool, true, false, Option, none, some, List, [], ◌∷◌, ==_iff,
  Result, ok, err, Result-cases, arith,
}
use e_commerce_titulo_interm.Errors.{ServiceError}
use e_commerce_titulo_interm.Auth.Login.{
  LoginAttempt, ThrottleConfig, Account, count_where, account_failure, ip_failure,
  assert_not_locked, record_attempt, require_active, verified, login_as, login_checked, login,
}

-- The tries of a password that was compared and was wrong, or of an unknown e-mail, the newest
-- first, whatever the code writes down of them.
abbrev pub wrong_tries :
    Result ServiceError Unit → ℕ → ℕ → ℕ → Option Account → List LoginAttempt → List LoginAttempt
wrong_tries (err e) now email ip user tries = tries
wrong_tries (ok done) now email ip (some account) tries = tries
wrong_tries (ok done) now email ip none tries =
    record { email = email; ip_address = ip; success = false; created_at = now } ∷ tries

-- The tables of attempts that logins leave, one after the other, with the time of the last one and
-- the wrong tries. Between two logins the table of users may change.
pub data Logins (config : ThrottleConfig) (compare : ℕ → ℕ → Bool)
    : ℕ → List LoginAttempt → List LoginAttempt → Type 0 where
  no_login : (now : ℕ) → Logins config compare now [] []
  next_login :
      {before now : ℕ} {log tries : List LoginAttempt}
      → Logins config compare before log tries
      → before ≤ now
      → (users : List Account) (email password ip : ℕ)
      → Logins config compare now (login config compare users now email password ip log).0 (
          wrong_tries
            (assert_not_locked config email ip now log)
            now
            email
            ip
            (verified compare users email password)
            tries)

-- Of no e-mail and of no IP address are there more failures in the window than the limit.
pub record IsThrottled (config : ThrottleConfig) (now : ℕ) (log : List LoginAttempt) : Type 0 where
  pub accounts :
      (email : ℕ) → count_where (account_failure config email now) log ≤ config.account_max_attempts
  pub ips : (ip : ℕ) → count_where (ip_failure config ip now) log ≤ config.ip_max_attempts

-- As time passes, failures only leave the window.
account_failures-later :
    (config : ThrottleConfig) (email before now : ℕ) (log : List LoginAttempt)
    → before ≤ now
    → count_where (account_failure config email now) log
      ≤ count_where (account_failure config email before) log
unfolding count_where
account_failures-later config email before now [] le = omega arith
account_failures-later config email before now (a ∷ log) le =
    ground (arith, account_failures-later config email before now log le)

ip_failures-later :
    (config : ThrottleConfig) (ip before now : ℕ) (log : List LoginAttempt)
    → before ≤ now
    → count_where (ip_failure config ip now) log ≤ count_where (ip_failure config ip before) log
unfolding count_where
ip_failures-later config ip before now [] le = omega arith
ip_failures-later config ip before now (a ∷ log) le =
    ground (arith, ip_failures-later config ip before now log le)

pub IsThrottled-later :
    (config : ThrottleConfig) (before now : ℕ) (log : List LoginAttempt)
    → before ≤ now
    → IsThrottled config before log
    → IsThrottled config now log
IsThrottled-later config before now log le h = record {
  accounts = λ email.
      omega (arith, account_failures-later config email before now log le, h.accounts email);
  ips = λ ip. omega (arith, ip_failures-later config ip before now log le, h.ips ip);
}

record_attempt-success :
    (config : ThrottleConfig) (now email ip : ℕ) (log : List LoginAttempt)
    → IsThrottled config now log
    → IsThrottled config now (record_attempt now email ip true log)
unfolding count_where
record_attempt-success config now email ip log h = record {
  accounts = λ other. ground (arith, h.accounts other);
  ips = λ other. ground (arith, h.ips other);
}

record_attempt-failure :
    (config : ThrottleConfig) (now email ip : ℕ) (log : List LoginAttempt)
    → IsThrottled config now log
    → assert_not_locked config email ip now log ≡ ok tt
    → IsThrottled config now (record_attempt now email ip false log)
unfolding count_where assert_not_locked
record_attempt-failure config now email ip log h unlocked = record {
  accounts = λ other. ground (arith, h.accounts other, ==_iff email other);
  ips = λ other. ground (arith, h.ips other, ==_iff ip other);
}

require_active-IsThrottled :
    (config : ThrottleConfig) (now email ip : ℕ) (account : Account) (log : List LoginAttempt)
    → IsThrottled config now log
    → IsThrottled config now (login_as now email ip (some account) log).0
require_active-IsThrottled config now email ip account log h =
    let Kept : Result ServiceError Account → Type 0 = λ r.
      IsThrottled config now
        (elim r as (λ r. List LoginAttempt × Result ServiceError Account) [
          | err e ↦ (log, err e)
          | ok u ↦ (record_attempt now email ip true log, ok u)
        ]).0 in
    elim (require_active account) as Kept [
      | err e ↦ h
      | ok u ↦ record_attempt-success config now email ip log h
    ]

login_as-IsThrottled :
    (config : ThrottleConfig) (now email ip : ℕ) (user : Option Account) (log : List LoginAttempt)
    → IsThrottled config now log
    → assert_not_locked config email ip now log ≡ ok tt
    → IsThrottled config now (login_as now email ip user log).0
login_as-IsThrottled config now email ip none log h unlocked =
    record_attempt-failure config now email ip log h unlocked
login_as-IsThrottled config now email ip (some account) log h unlocked =
    require_active-IsThrottled config now email ip account log h

pub login-IsThrottled :
    (config : ThrottleConfig) (compare : ℕ → ℕ → Bool) (users : List Account)
    (now email password ip : ℕ) (log : List LoginAttempt)
    → IsThrottled config now log
    → IsThrottled config now (login config compare users now email password ip log).0
unfolding login
login-IsThrottled config compare users now email password ip log h =
    let user = verified compare users email password in
    let After : Result ServiceError Unit → Type 0 =
      λ checked. IsThrottled config now (login_checked checked now email ip user log).0 in
    elim (Result-cases (assert_not_locked config email ip now log)) [
      | inl (done, unlocked) ↦
          subst After (sym unlocked) (login_as-IsThrottled config now email ip user log h unlocked)
      | inr (e, locked) ↦ subst After (sym locked) h
    ]
