-- ===== src/Interop.antt =====
-- conformance/interop/clients/python/client.py: the workers that check every answer of /echo, and `main`.
-- The answers of the server come in as values.
pub mod Names
pub mod Checks
pub mod Verdict
pub mod Tests
use nim_vortex.Prelude.{
  ℕ, suc, ◌+◌, Bool, true, false, ◌&&◌, ◌||◌, Option, none, some, List, [], ◌∷◌, ◌++◌, ◌==◌,
  if◌then◌else◌,
}
use nim_vortex.Prelude.Bytes.{Bytes, codes, equal}
use nim_vortex.Prelude.Text.{strip, show}
use nim_vortex.Stress.{has_part}

-- An answer, as far as it is looked at, or the exception of the client.
pub record Reply : Type 0 where
  pub status : ℕ
  pub version : Bytes
  pub encoding : Option Bytes
  pub echoed : Option Bytes
  pub text : Bytes

pub data Answer : Type 0 where
  replied : Reply → Answer
  broken : Bytes → Answer

pub data Result : Type 0 where
  counted : ℕ → Result
  raises : Bytes → Result

abbrev pub methods : List Bytes
methods =
    codes "GET"
    ∷ codes "POST"
    ∷ codes "PUT"
    ∷ codes "PATCH"
    ∷ codes "DELETE"
    ∷ codes "HEAD"
    ∷ codes "OPTIONS"
    ∷ []

-- `value == text` of a header that need not be there
unfoldable pub is_text : Bytes → Option Bytes → Bool
is_text text none = false
is_text text (some value) = equal value text

-- `if b: raise RuntimeError(…)`, and else the rest
unfoldable pub unless : Bool → Bytes → Result → Result
unless true text rest = rest
unless false text rest = raises text

-- The check of the method: HEAD has a header for it, the others have it in the body.
unfoldable pub echoes_method : Bytes → Reply → Bool
echoes_method m r =
    if equal m (codes "HEAD")
    then is_text (codes "HEAD") r.echoed
    else has_part (codes "method=" ++ m) r.text

unfoldable pub or_none_text : Option Bytes → Bytes
or_none_text none = codes "None"
or_none_text (some text) = text

unfoldable pub no_method : Bytes → Bytes
no_method m =
    if equal m (codes "HEAD")
    then codes "HEAD missing x-echo-method"
    else m ++ codes " body did not echo method"

unfoldable pub not_encoded : Bytes → Bytes → Option Bytes → Bytes
not_encoded m enc got = m ++ (codes " not " ++ (enc ++ (codes "-encoded: " ++ or_none_text got)))

-- One request of the loop over METHODS, and what comes behind it.
unfoldable pub checked : Bytes → Bytes → Answer → Result → Result
checked enc m (broken text) rest = raises text
checked enc m (replied r) rest =
    unless (r.status == 200) (m ++ (codes " status " ++ show r.status)) (
      unless (equal r.version (codes "HTTP/2")) (m ++ (codes " not HTTP/2: " ++ r.version)) (
        unless (is_text enc r.encoding) (not_encoded m enc r.encoding)
          (unless (echoes_method m r) (no_method m) rest)))

-- The loop, where `rest` goes on from the count.
unfoldable pub each_method : Bytes → (Bytes → Answer) → List Bytes → ℕ → (ℕ → Result) → Result
each_method enc answer [] n rest = rest n
each_method enc answer (m ∷ ms) n rest =
    checked enc m (answer m) (each_method enc answer ms (suc n) rest)

-- `r.text.strip() in ("", "-")`
unfoldable pub is_blank : Bytes → Bool
is_blank text = equal (strip text) [] || equal (strip text) (codes "-")

unfoldable pub names_subject : Reply → Bool
names_subject r = r.status == 200 && (if is_blank r.text then false else true)

unfoldable pub whoami : Bool → Answer → ℕ → (ℕ → Result) → Result
whoami false a n rest = rest n
whoami true (broken text) n rest = raises text
whoami true (replied r) n rest =
    unless (names_subject r) (codes "mTLS /whoami did not report a client subject") (rest (suc n))

-- The answers of a round: of /echo by method, and of /whoami.
pub record Round : Type 0 where
  pub echo : Bytes → Answer
  pub subject : Answer

-- The loop of `worker(deadline)`, for the rounds that begin before the deadline.
unfoldable pub rounds : Bool → Bytes → List Round → ℕ → Result
rounds mtls enc [] n = counted n
rounds mtls enc (r ∷ rs) n =
    each_method enc r.echo methods n (λ n'. whoami mtls r.subject n' (rounds mtls enc rs))

unfoldable pub worker : Bool → Bytes → List Round → Result
worker mtls enc rs = rounds mtls enc rs 0

-- `main()`: the total of the workers, or the first failure in their order, with the exit code.
unfoldable pub gather : ℕ → List Result → Result
gather total [] = counted total
gather total (counted n ∷ rs) = gather (total + n) rs
gather total (raises text ∷ rs) = raises text

unfoldable pub results : Bool → Bytes → List (List Round) → List Result
results mtls enc [] = []
results mtls enc (w ∷ ws) = worker mtls enc w ∷ results mtls enc ws

pub data Exit : Type 0 where
  passed : ℕ → Exit
  failed : Bytes → Exit

unfoldable pub exit : Result → Exit
exit (counted n) = passed n
exit (raises text) = failed text

unfoldable pub main : Bool → Bytes → List (List Round) → Exit
main mtls enc workers = exit (gather 0 (results mtls enc workers))
