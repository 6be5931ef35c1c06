-- ===== src/Decide/Sample.antt =====
-- The audit sample: a share of the cleared items, drawn by a salted hash of the case id.
use optimaler_status.Base.{
  ℕ, ◌/◌, ◌^◌, Bool, true, false, ◌||◌, ◌&&◌, Option, none, some, String, str_eq, if◌then◌else◌,
}
use optimaler_status.Base.Int.{pos}
use optimaler_status.Python.Result.{Result, ok, ◌>>=◌}
use optimaler_status.Python.Value.{Value, str, py_eq}
use optimaler_status.Python.Float
use optimaler_status.Python.Float.{Float, finite, of_int}
use optimaler_status.Contracts.Common.{
  Tier, clear_and_complete, incomplete_but_routable, full_human_review,
}
use optimaler_status.Contracts.Decision.{AuditSample, ReasonKind}

-- hashlib.blake2b(message, key=key, digest_size=8), its digest read big-endian: the arguments are
-- the key and the message. It raises ValueError for a key that is too long.
abbrev pub Digest : Type 0
Digest = String → String → Result ℕ

-- x / 2^64, for a float that is zero or at least 2^-1010: nothing is rounded.
unfoldable pub divide_by_range : Float → Float
divide_by_range (finite (pos n)) = finite (pos (n / 2 ^ 64))
divide_by_range x = x

unfoldable pub audit_sample_draw : Digest → String → String → Result Float
unfolding of_int divide_by_range
audit_sample_draw digest case_id salt = do
  n ← digest salt case_id
  x ← of_int (pos n)
  ok (divide_by_range x)

abbrev pub is_blank : Option String → Bool
is_blank none = true
is_blank (some s) = str_eq s ""

abbrev pub text_of : Option String → String
text_of none = ""
text_of (some s) = s

unfoldable pub evaluate_audit_sample :
    Digest → String → Float → Option String → Result (Option AuditSample)
evaluate_audit_sample digest case_id rate salt =
    if Float.le rate (finite (pos 0)) || is_blank salt then ok none else do
      draw ← audit_sample_draw digest case_id (text_of salt)
      ok (
          some
            (record { case_id = case_id; rate = rate; draw = draw; sampled = Float.lt draw rate }))

-- tier in SAMPLEABLE_TIERS
abbrev pub is_sampleable : Tier → Bool
is_sampleable clear_and_complete = true
is_sampleable incomplete_but_routable = true
is_sampleable full_human_review = false

abbrev pub audit_sample_rule_id : String
audit_sample_rule_id = "audit_sample"

-- ReasonKind.value
abbrev pub kind_value : ReasonKind → String
kind_value ReasonKind.qualified = "qualified"
kind_value ReasonKind.failed = "failed"
kind_value ReasonKind.downgraded = "downgraded"
kind_value ReasonKind.defaulted = "defaulted"
kind_value ReasonKind.error = "errored"
kind_value ReasonKind.sampled = "sampled"

-- The kind of a reason, as a member of the enumeration or as an object read from a journal.
pub data KindObject : Type 0 where
  member : ReasonKind → KindObject
  journaled : Value → KindObject

unfoldable pub reason_kind_value : KindObject → Option String
reason_kind_value (member k) = some (kind_value k)
reason_kind_value (journaled (str s)) = some s
reason_kind_value (journaled v) = none

-- Whether a string that may be missing is this one.
abbrev pub is_string : String → Option String → Bool
is_string s none = false
is_string s (some r) = str_eq r s

unfoldable pub is_audit_sample_reason : KindObject → Value → Bool
unfolding reason_kind_value
is_audit_sample_reason kind rule_id =
    is_string "sampled" (reason_kind_value kind)
    || (is_string "downgraded" (reason_kind_value kind) && py_eq rule_id (str audit_sample_rule_id))
