-- ===== src/Tests/AuthCases.antt =====
-- The theorem on the throttle of the login, at an account whose password is guessed.
use e_commerce_titulo_interm.Common.{ℕ, Bool, false, List, [], ◌∷◌, ◌≡◌, refl, ◌==◌, arith, ok, err}
use e_commerce_titulo_interm.Errors.{account_locked}
use e_commerce_titulo_interm.Auth.Login.{
  LoginAttempt, ThrottleConfig, Account, activa, count_where, assert_not_locked, login,
}
use e_commerce_titulo_interm.Auth.Attempts.{Logins, no_login, next_login, IsThrottled}
use e_commerce_titulo_interm.Auth.Throttle.{Logins-IsThrottled}

abbrev two_tries : ThrottleConfig
two_tries = record {
  account_max_attempts = 2;
  account_window_min = 15;
  ip_max_attempts = 20;
  ip_window_min = 15;
}

abbrev ana : Account
ana = record { id = 3; email = 1; password_hash = 77; status = activa }

-- A hash that is the password itself.
abbrev same_password : ℕ → ℕ → Bool
same_password password hash = password == hash

abbrev guess_at : ℕ → LoginAttempt
guess_at now = record { email = 1; ip_address = 9; success = false; created_at = now }

abbrev guesses : List LoginAttempt
guesses = guess_at 200 ∷ guess_at 100 ∷ []

-- The third login is refused, with the right password too, until the first try leaves the window.
refused_login :
    login two_tries same_password (ana ∷ []) 300 1 77 9 guesses ≡ (guesses, err account_locked)
unfolding login assert_not_locked count_where
refused_login = refl

accepted_login : (login two_tries same_password (ana ∷ []) 900150 1 77 9 guesses).1 ≡ ok ana
unfolding login assert_not_locked count_where
accepted_login = refl

two_guesses : Logins two_tries same_password 200 guesses guesses
unfolding login assert_not_locked count_where
two_guesses =
    next_login {before = 100}
      (next_login {before = 50} (no_login 50) (omega arith) (ana ∷ []) 1 5 9) (omega arith)
      (ana ∷ []) 1 6 9

Logins-IsThrottled_example : IsThrottled two_tries 300 guesses
Logins-IsThrottled_example =
    Logins-IsThrottled two_tries same_password two_guesses 300 (omega arith)
