-- ===== src/Common/Types.antt =====
-- include/mm/common/Types.hpp and include/mm/common/Status.hpp. An `InlineString` is only compared
-- and tested for emptiness, so it is a `String`. A `Status` is its code: the message, which is only
-- logged, is left out. A 64-bit counter wraps.
use Prim.Native.String.{len}
use text.Mathlib.Text.{◌==◌ as str_eq}
use crypto_mm_engine.Prelude.{ℕ, ◌+◌, ◌-◌, if◌then◌else◌, ◌%◌, ◌^◌, ◌==◌, String, Bool, true, false}
use crypto_mm_engine.Prelude.Int.{ℤ, pos, negsuc, ◌+ℤ◌, eqb_ℤ}

pub data Side : Type 0 where
  buy sell : Side

abbrev pub Symbol : Type 0
Symbol = String

abbrev pub TradeId : Type 0
TradeId = String

-- Unsigned 64-bit sequence numbers; 0 is `kNoSeq`.
abbrev pub Seq : Type 0
Seq = ℕ

abbrev pub no_seq : Seq
no_seq = 0

-- Nanoseconds, a signed 64-bit number.
abbrev pub Nanos : Type 0
Nanos = ℤ

abbrev pub same_text : String → String → Bool
same_text a b = str_eq a b

abbrev pub is_empty : String → Bool
is_empty s = len s == 0

unfoldable pub opposite : Side → Side
opposite Side.buy = Side.sell
opposite Side.sell = Side.buy

-- `++n` on a std::uint64_t.
abbrev pub inc64 : ℕ → ℕ
inc64 n = (n + 1) % 2 ^ 64

-- `++n` on a std::int32_t, in two's complement.
abbrev pub inc32 : ℤ → ℤ
inc32 n = if eqb_ℤ n (pos (2 ^ 31 - 1)) then negsuc (2 ^ 31 - 1) else n +ℤ pos 1

pub data ErrorCode : Type 0 where
  ok_code : ErrorCode
  invalid_argument failed_precondition not_found already_exists out_of_range : ErrorCode
  permission_denied unavailable timeout parse_error rejected overflow unsafe internal : ErrorCode

abbrev pub Status : Type 0
Status = ErrorCode

abbrev pub is_ok : Status → Bool
is_ok ok_code = true
is_ok _ = false
