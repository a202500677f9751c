-- ===== src/Client/Call.antt =====
-- src/client: a call of an endpoint and its answer.
use validator_guardian.Prelude.{Bool, false, ◌&&◌, Option, none, [], ◌∷◌, ◌++◌, ◌==◌, leb, not}
use validator_guardian.Text.{Text}
use validator_guardian.Outcome.{bail_if, or_err, http_failure, bad_json}
use validator_guardian.Disk.{Exec, ◌>>=◌, lift, pure}
use validator_guardian.Enclave.Types.{match_result}
use validator_guardian.External.Http.{Http, Method, get}

module _ (http : Http) where
  -- "/upcheck"
  unfoldable pub upcheck : Text → Exec Bool
  upcheck url =
      match_result
        (http.send (record {
          method = get;
          url = url ++ (b'/' ∷ b'u' ∷ b'p' ∷ b'c' ∷ b'h' ∷ b'e' ∷ b'c' ∷ b'k' ∷ []);
          json = none;
        }))
        (λ resp. pure (resp.status == 200)) (λ e. pure false)

  -- An answer without a status of success is an error.
  unfoldable pub call : {A : Type 0} → Method → Text → Option Text → (Text → Option A) → Exec A
  call method url json read = do
    resp ← http.send (record { method = method; url = url; json = json })
    _ ← lift (bail_if (not (leb 200 resp.status && leb resp.status 299)) http_failure)
    lift (or_err (read resp.body) bad_json)

  -- The status is not looked at.
  unfoldable pub call_unchecked :
      {A : Type 0} → Method → Text → Option Text → (Text → Option A) → Exec A
  call_unchecked method url json read = do
    resp ← http.send (record { method = method; url = url; json = json })
    lift (or_err (read resp.body) bad_json)
