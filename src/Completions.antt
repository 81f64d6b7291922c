-- ===== src/Completions.antt =====
-- ffi/rpc_bridge_common.cpp and rpc_bridge_common.h: what the worker thread writes for the Lean thread
-- that waits. Each of them runs under the completion's mutex, which makes it one step.
pub mod Deferred
use lean_capnproto.Prelude.{
  ℕ, ◌≡◌, Bool, true, false, Option, none, some, List, [], ◌∷◌, ◌++◌, codes, c_str, if◌then◌else◌,
}
use lean_capnproto.Prelude.Result.{Result, ok, err}
use lean_capnproto.Targets.{ExceptionType, failed, overloaded, disconnected, unimplemented}

abbrev pub Text : Type 0
Text = List ℕ

-- The members that all completions have, and the value.
pub record Completion (V : Type 0) : Type 0 where
  pub done : Bool
  pub success : Bool
  pub error : Text
  pub value : V

module _ {V : Type 0} where
  -- `ok`, the value, and `done` last.
  unfoldable pub succeed : V → Completion V → Completion V
  succeed v c = record c { success = true; value = v; done = true }

  unfoldable pub fail : Text → Completion V → Completion V
  fail message c = record c { success = false; error = message; done = true }

  -- What a Lean thread that waits reads, under the mutex; `none` while it goes on waiting.
  unfoldable wait_result : Completion V → Option (Result Text V)
  wait_result c = if c.done then some (if c.success then ok c.value else err c.error) else none

abbrev RegisterTargetCompletion : Type 0
RegisterTargetCompletion = Completion ℕ

abbrev pub UnitCompletion : Type 0
UnitCompletion = Completion (Unit {0})

abbrev UInt64Completion : Type 0
UInt64Completion = Completion ℕ

abbrev BoolCompletion : Type 0
BoolCompletion = Completion Bool

-- `has_value` and `value` are two members.
abbrev OptionalStringCompletion : Type 0
OptionalStringCompletion = Completion (Bool × Text)

-- A 64-bit word.
abbrev Int64Completion : Type 0
Int64Completion = Completion ℕ

abbrev ByteArrayCompletion : Type 0
ByteArrayCompletion = Completion (List ℕ)

abbrev RegisterPairCompletion : Type 0
RegisterPairCompletion = Completion (ℕ × ℕ)

abbrev KjPromiseIdCompletion : Type 0
KjPromiseIdCompletion = Completion ℕ

pub record ProtocolMessageCounts : Type 0 where
  pub resolve_count : ℕ
  pub disembargo_count : ℕ

abbrev ProtocolMessageCountsCompletion : Type 0
ProtocolMessageCountsCompletion = Completion ProtocolMessageCounts

abbrev complete_register_success : ℕ → RegisterTargetCompletion → RegisterTargetCompletion
complete_register_success = succeed

abbrev complete_register_failure : Text → RegisterTargetCompletion → RegisterTargetCompletion
complete_register_failure = fail

abbrev pub complete_unit_success : UnitCompletion → UnitCompletion
complete_unit_success c = succeed tt c

abbrev pub complete_unit_failure : Text → UnitCompletion → UnitCompletion
complete_unit_failure = fail

abbrev complete_uint64_success : ℕ → UInt64Completion → UInt64Completion
complete_uint64_success = succeed

abbrev complete_uint64_failure : Text → UInt64Completion → UInt64Completion
complete_uint64_failure = fail

abbrev complete_bool_success : Bool → BoolCompletion → BoolCompletion
complete_bool_success = succeed

abbrev complete_bool_failure : Text → BoolCompletion → BoolCompletion
complete_bool_failure = fail

-- A missing string clears the old one.
abbrev optional_fields : Option Text → Bool × Text
optional_fields none = (false, [])
optional_fields (some v) = (true, v)

abbrev complete_optional_string_success :
    Option Text → OptionalStringCompletion → OptionalStringCompletion
complete_optional_string_success value = succeed (optional_fields value)

abbrev complete_optional_string_failure : Text → OptionalStringCompletion → OptionalStringCompletion
complete_optional_string_failure = fail

abbrev complete_int64_success : ℕ → Int64Completion → Int64Completion
complete_int64_success = succeed

abbrev complete_int64_failure : Text → Int64Completion → Int64Completion
complete_int64_failure = fail

abbrev complete_byte_array_success : List ℕ → ByteArrayCompletion → ByteArrayCompletion
complete_byte_array_success = succeed

abbrev complete_byte_array_failure : Text → ByteArrayCompletion → ByteArrayCompletion
complete_byte_array_failure = fail

abbrev complete_register_pair_success : ℕ → ℕ → RegisterPairCompletion → RegisterPairCompletion
complete_register_pair_success first second = succeed (first, second)

abbrev complete_register_pair_failure : Text → RegisterPairCompletion → RegisterPairCompletion
complete_register_pair_failure = fail

abbrev complete_kj_promise_id_success : ℕ → KjPromiseIdCompletion → KjPromiseIdCompletion
complete_kj_promise_id_success = succeed

abbrev complete_kj_promise_id_failure : Text → KjPromiseIdCompletion → KjPromiseIdCompletion
complete_kj_promise_id_failure = fail

-- `V` is Cap'n Proto's RpcDiagnostics.
abbrev complete_diagnostics_success : {V : Type 0} → V → Completion V → Completion V
complete_diagnostics_success = succeed

abbrev complete_diagnostics_failure : {V : Type 0} → Text → Completion V → Completion V
complete_diagnostics_failure = fail

abbrev complete_protocol_message_counts_success :
    ProtocolMessageCounts → ProtocolMessageCountsCompletion → ProtocolMessageCountsCompletion
complete_protocol_message_counts_success = succeed

abbrev complete_protocol_message_counts_failure :
    Text → ProtocolMessageCountsCompletion → ProtocolMessageCountsCompletion
complete_protocol_message_counts_failure = fail

-- What the program reads of a kj::Exception.
pub record KjException : Type 0 where
  pub kind : ExceptionType
  pub description : Text
  pub remote_trace : Option Text
  pub detail : Option Text
  pub file : Text
  pub line : ℕ

kj_exception_type_name : ExceptionType → Text
kj_exception_type_name failed = codes "FAILED"
kj_exception_type_name overloaded = codes "OVERLOADED"
kj_exception_type_name disconnected = codes "DISCONNECTED"
kj_exception_type_name unimplemented = codes "UNIMPLEMENTED"

abbrev part_of : Text → Option Text → Text
part_of label none = []
part_of label (some t) = label ++ t

describe_kj_exception : KjException → Text
unfolding kj_exception_type_name
describe_kj_exception e =
    e.description
    ++ codes "\nexception type: "
    ++ kj_exception_type_name e.kind
    ++ part_of (codes "\nremote trace: ") e.remote_trace
    ++ part_of (codes "\nremote detail[1]: ") e.detail

abbrev or_empty : Option Text → Text
or_empty none = []
or_empty (some t) = t

pub record RawCallCompletion : Type 0 where
  pub done : Bool
  pub success : Bool
  pub error : Text
  pub exception_type : ExceptionType
  pub exception_description : Text
  pub remote_trace : Text
  pub detail_bytes : Text
  pub file_name : Text
  pub line_number : ℕ
  pub response : List ℕ
  pub response_cap_bytes : List ℕ

complete_success : List ℕ → List ℕ → RawCallCompletion → RawCallCompletion
complete_success response caps c = record c {
  success = true;
  response = response;
  response_cap_bytes = caps;
  done = true;
}

complete_failure : Text → RawCallCompletion → RawCallCompletion
complete_failure message c = record c {
  success = false;
  error = message;
  exception_type = failed;
  exception_description = message;
  remote_trace = [];
  detail_bytes = [];
  done = true;
}

complete_failure_kj : KjException → RawCallCompletion → RawCallCompletion
unfolding describe_kj_exception
complete_failure_kj e c = record c {
  success = false;
  error = describe_kj_exception e;
  exception_type = e.kind;
  exception_description = e.description;
  remote_trace = or_empty e.remote_trace;
  detail_bytes = or_empty e.detail;
  file_name = e.file;
  line_number = e.line;
  done = true;
}
