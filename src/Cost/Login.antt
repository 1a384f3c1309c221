-- ===== src/Cost/Login.antt =====
-- `authenticate` of tools/xolis_aws_cost.py.
use xolis.Base.{
  ℕ, ◌+◌, ◌≡◌, refl, inl, inr, Bool, true, false, List, [], ◌∷◌, ◌++◌, arith, ◌==◌, nat_eq,
  if◌then◌else◌, Bool-cases,
}
use xolis.Base.Result.{Result, ok, err}
use xolis.Cost.{Failure, aws_command_error, Response, CompletedProcess, checked}

pub data LoginMode : Type 0 where
  auto always never : LoginMode

pub data Call : Type 0 where
  sso_login get_caller_identity : Call

-- What the calls give, each by the calls before it: a log-in changes what AWS answers.
pub record Account : Type 0 where
  pub login_status : List Call → ℕ
  pub identity : List Call → CompletedProcess

-- What has been called, and what was returned or raised.
pub record Authenticated : Type 0 where
  pub calls : List Call
  pub result : Result Failure Response

abbrev pub ask : Account → List Call → Authenticated
ask account calls = record {
  calls = calls ++ (get_caller_identity ∷ []);
  result = checked (account.identity calls);
}

-- `aws.login()` and then the identity
abbrev pub login_and_ask : Account → List Call → Authenticated
login_and_ask account calls =
    if account.login_status calls == 0
    then ask account (calls ++ (sso_login ∷ []))
    else record { calls = calls ++ (sso_login ∷ []); result = err aws_command_error }

-- `except AwsCommandError`, where the log-in is automatic
abbrev pub retry : Account → Authenticated → Result Failure Response → Authenticated
retry account first (err aws_command_error) = login_and_ask account first.calls
retry account first r = first

unfoldable pub authenticate : Account → LoginMode → Authenticated
authenticate account always = login_and_ask account []
authenticate account never = ask account []
authenticate account auto = let first = ask account [] in retry account first first.result

abbrev pub logins : List Call → ℕ
logins [] = 0
logins (sso_login ∷ calls) = 1 + logins calls
logins (get_caller_identity ∷ calls) = logins calls

abbrev pub is_refused : Result Failure Response → Bool
is_refused (err aws_command_error) = true
is_refused r = false

abbrev pub expected_logins : Account → LoginMode → ℕ
expected_logins account always = 1
expected_logins account never = 0
expected_logins account auto = if is_refused (checked (account.identity [])) then 1 else 0

-- The last call asked for the identity, and its answer is what was returned.
pub record IsAnswered (account : Account) (calls : List Call) (identity : Response) : Type 0 where
  pub before : List Call
  pub asked : calls ≡ before ++ (get_caller_identity ∷ [])
  pub answer : checked (account.identity before) ≡ ok identity

ask-IsAnswered :
    (account : Account) (calls : List Call) (identity : Response)
    → (ask account calls).result ≡ ok identity
    → IsAnswered account (ask account calls).calls identity
ask-IsAnswered account calls identity h = record { before = calls; asked = refl; answer = h }

login_and_ask-IsAnswered :
    (account : Account) (calls : List Call) (identity : Response)
    → (login_and_ask account calls).result ≡ ok identity
    → IsAnswered account (login_and_ask account calls).calls identity
login_and_ask-IsAnswered account calls identity h =
    elim (Bool-cases (account.login_status calls == 0)) [
      | inl e ↦ rw e (ask-IsAnswered account (calls ++ (sso_login ∷ [])) identity (rw e at h))
      | inr e ↦ cc (rw e at h)
    ]

logins-append : (a b : List Call) → logins (a ++ b) ≡ logins a + logins b
logins-append [] b = omega arith
logins-append (sso_login ∷ a) b = omega (arith, logins-append a b)
logins-append (get_caller_identity ∷ a) b = omega (arith, logins-append a b)

login_and_ask-logins :
    (account : Account) (calls : List Call)
    → logins calls ≡ 0
    → logins (login_and_ask account calls).calls ≡ 1
login_and_ask-logins account calls h =
    let logged = calls ++ (sso_login ∷ []) in
    elim (Bool-cases (account.login_status calls == 0)) [
      | inl e ↦ rw e (
          omega (
            arith,
            logins-append calls (sso_login ∷ []),
            logins-append logged (get_caller_identity ∷ []),
          ))
      | inr e ↦ rw e (omega (arith, logins-append calls (sso_login ∷ [])))
    ]

-- What an authentication has called, and what it returned.
pub record IsAuthentication (account : Account) (mode : LoginMode) (a : Authenticated)
    : Type 0 where
  pub login_count : logins a.calls ≡ expected_logins account mode
  pub answered :
      (identity : Response) → a.result ≡ ok identity → IsAnswered account a.calls identity

retry-IsAuthentication :
    (account : Account) (r : Result Failure Response)
    → checked (account.identity []) ≡ r
    → IsAuthentication account auto (retry account (ask account []) r)
retry-IsAuthentication account (ok identity) e = record {
  login_count = rw e refl;
  answered = λ i h. ask-IsAnswered account [] i h;
}
retry-IsAuthentication account (err aws_command_error) e = record {
  login_count = rw e (login_and_ask-logins account (get_caller_identity ∷ []) refl);
  answered = λ i. login_and_ask-IsAnswered account (get_caller_identity ∷ []) i;
}
retry-IsAuthentication account (err _) e = record { login_count = rw e refl; answered = λ i h. cc }

-- An authentication logs in once if it is to do so always, never if it must not, and otherwise once
-- exactly if AWS refuses the first request for the identity; what it returns is the answer to its last
-- request, made after the log-in.
pub authenticate-IsAuthentication :
    (account : Account) (mode : LoginMode)
    → IsAuthentication account mode (authenticate account mode)
unfolding authenticate
authenticate-IsAuthentication account always = record {
  login_count = login_and_ask-logins account [] refl;
  answered = login_and_ask-IsAnswered account [];
}
authenticate-IsAuthentication account never = record {
  login_count = refl;
  answered = ask-IsAnswered account [];
}
authenticate-IsAuthentication account auto =
    retry-IsAuthentication account (checked (account.identity [])) refl
