-- ===== src/Server/Reply.antt =====
-- The replies that the gateway makes itself, and the supervisor's refusal.
use tube.Common.{ℕ, zero, suc, Option, none, some, [], ◌∷◌, ◌++◌, text_eq}
use tube.Common.JsMap
use tube.Common.JsMap.{JsMap}
use tube.Common.Text.{Text, codes}
use tube.Supervisor.{AdmitDecision}

-- A response: the body is kept as its `error` and `reason`, empty where it has none.
pub record Reply : Type 0 where
  pub status : ℕ
  pub headers : JsMap Text ℕ
  pub error : Text
  pub reason : Text

abbrev pub reply : ℕ → Text → Text → Reply
reply status error reason = record { status = status; headers = []; error = error; reason = reason }

abbrev pub not_found : Text → Reply
not_found name = reply 404 (codes "Function \"" ++ name ++ codes "\" not found") []

abbrev status_or : ℕ → Option ℕ → ℕ
status_or d none = d
status_or d (some s) = s

abbrev text_or_empty : Option Text → Text
text_or_empty none = []
text_or_empty (some s) = s

-- `if (decision.retryAfter) headers["Retry-After"] = …`
abbrev retry_headers : Option ℕ → JsMap Text ℕ
retry_headers none = []
retry_headers (some zero) = []
retry_headers (some (suc n)) = (codes "Retry-After", suc n) ∷ []

-- The answer to a request that the supervisor does not admit.
unfoldable pub breaker_reply : AdmitDecision → Reply
breaker_reply d = record {
  status = status_or 503 d.status;
  headers = retry_headers d.retry_after;
  error = codes "Service temporarily unavailable";
  reason = text_or_empty d.reason;
}

abbrev pub auth_unavailable : Reply
auth_unavailable =
    record (reply 503 (codes "Auth temporarily unavailable") (codes "jwt_secret_unavailable")) {
      headers = (codes "X-1tube-Auth-Unavailable", 1) ∷ [];
    }

abbrev pub warming : Reply
warming = record (reply 503 (codes "Backend is warming up") (codes "function_warming")) {
  headers = (codes "Retry-After", 1) ∷ (codes "X-1tube-Warming", 1) ∷ [];
}

abbrev pub boot_failed : Text → Reply
boot_failed name =
    reply 503 (codes "Function \"" ++ name ++ codes "\" failed to load")
      (codes "function_boot_failed")

-- `response.headers.set("X-1tube-Stale", "1")`
abbrev pub mark_stale : Reply → Reply
mark_stale r = record r { headers = JsMap.set (codes "X-1tube-Stale") 1 r.headers }
