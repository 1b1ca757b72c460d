-- ===== src/Auth/Throttle.antt =====
-- The throttle of the login: how many wrong passwords anyone may try.
use e_commerce_titulo_interm.Common.{
  ℕ, ◌≤◌, Bool, true, false, Option, none, some, List, Result, ok, err, arith,
}
use e_commerce_titulo_interm.Errors.{ServiceError}
use e_commerce_titulo_interm.Auth.Login.{
  LoginAttempt, ThrottleConfig, Account, count_where, account_failure, ip_failure,
  assert_not_locked, record_attempt, require_active, verified, login_checked, login,
}
use e_commerce_titulo_interm.Auth.Attempts.{
  Logins, IsThrottled, wrong_tries, no_login, next_login, IsThrottled-later, login-IsThrottled,
}

-- Every wrong try is in the table of attempts.
record AreRecorded (config : ThrottleConfig) (log tries : List LoginAttempt) : Type 0 where
  pub by_account :
      (email now : ℕ)
      → count_where (account_failure config email now) tries
        ≤ count_where (account_failure config email now) log
  pub by_ip :
      (ip now : ℕ)
      → count_where (ip_failure config ip now) tries ≤ count_where (ip_failure config ip now) log

recorded_success :
    (config : ThrottleConfig) (now email ip : ℕ) (log tries : List LoginAttempt)
    → AreRecorded config log tries
    → AreRecorded config (record_attempt now email ip true log) tries
unfolding count_where
recorded_success config now email ip log tries h = record {
  by_account = λ other later. ground (arith, h.by_account other later);
  by_ip = λ other later. ground (arith, h.by_ip other later);
}

recorded_failure :
    (config : ThrottleConfig) (now email ip : ℕ) (log tries : List LoginAttempt)
    → AreRecorded config log tries
    → AreRecorded config
        (record_attempt now email ip false log)
        (record_attempt now email ip false tries)
unfolding count_where
recorded_failure config now email ip log tries h = record {
  by_account = λ other later. omega (arith, h.by_account other later);
  by_ip = λ other later. omega (arith, h.by_ip other later);
}

login_checked-AreRecorded :
    (config : ThrottleConfig) (checked : Result ServiceError Unit) (now email ip : ℕ)
    (user : Option Account) (log tries : List LoginAttempt)
    → AreRecorded config log tries
    → AreRecorded config
        (login_checked checked now email ip user log).0
        (wrong_tries checked now email ip user tries)
login_checked-AreRecorded config (err e) now email ip user log tries h = h
login_checked-AreRecorded config (ok done) now email ip none log tries h =
    recorded_failure config now email ip log tries h
login_checked-AreRecorded config (ok done) now email ip (some account) log tries h =
    let Kept : Result ServiceError Account → Type 0 = λ r.
      AreRecorded config
        (elim r as (λ r. List LoginAttempt × Result ServiceError Account) [
          | err e ↦ (log, err e)
          | ok u ↦ (record_attempt now email ip true log, ok u)
        ]).0
        tries in
    elim (require_active account) as Kept [
      | err e ↦ h
      | ok u ↦ recorded_success config now email ip log tries h
    ]

Logins-AreRecorded :
    (config : ThrottleConfig) (compare : ℕ → ℕ → Bool) {last : ℕ} {log tries : List LoginAttempt}
    → Logins config compare last log tries
    → AreRecorded config log tries
unfolding login count_where
Logins-AreRecorded config compare (no_login last) = record {
  by_account = λ email now. omega arith;
  by_ip = λ ip now. omega arith;
}
Logins-AreRecorded config compare
      (next_login {now = last} {log = log} {tries = tries} earlier le users email password ip) =
    login_checked-AreRecorded config (assert_not_locked config email ip last log) last email ip
      (verified compare users email password) log tries (Logins-AreRecorded config compare earlier)

log-IsThrottled :
    (config : ThrottleConfig) (compare : ℕ → ℕ → Bool) {last : ℕ} {log tries : List LoginAttempt}
    → Logins config compare last log tries
    → (now : ℕ) → last ≤ now
    → IsThrottled config now log
unfolding count_where
log-IsThrottled config compare (no_login last) now le = record {
  accounts = λ email. omega arith;
  ips = λ ip. omega arith;
}
log-IsThrottled config compare
      (next_login {now = last} {log = log} earlier le users email password ip) now later =
    IsThrottled-later config last now (login config compare users last email password ip log).0
      later
      (login-IsThrottled config compare users last email password ip log
        (log-IsThrottled config compare earlier last le))

-- After any sequence of logins, one after the other in time, with any passwords and any tables of
-- users in between, at any later time of each e-mail and of each IP address there were no more
-- tries with a wrong password or an unknown e-mail in the window than the limit, if the tries
-- that a lock refused, which compare no password, are left out.
pub Logins-IsThrottled :
    (config : ThrottleConfig) (compare : ℕ → ℕ → Bool) {last : ℕ} {log tries : List LoginAttempt}
    → Logins config compare last log tries
    → (now : ℕ) → last ≤ now
    → IsThrottled config now tries
Logins-IsThrottled config compare {log} {tries} logins now le =
    let logged = log-IsThrottled config compare logins now le in
    let recorded = Logins-AreRecorded config compare logins in
    record {
      accounts = λ email. omega (arith, logged.accounts email, recorded.by_account email now);
      ips = λ ip. omega (arith, logged.ips ip, recorded.by_ip ip now);
    }
