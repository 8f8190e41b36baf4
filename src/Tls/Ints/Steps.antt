-- ===== src/Tls/Ints/Steps.antt =====
-- How far the integer readers of src/pure_mls/tls.py move.
use pure_mls.Prelude.{ℕ, arith}
use pure_mls.Wire.Steps.{Steps}
use pure_mls.Tls.Ints.{unpack_from, byte_at, read_u8, read_u16, read_u32, read_u64}

pub unpack_from-Steps : (n : ℕ) → Steps n (unpack_from n)
unfolding unpack_from
unpack_from-Steps n = record {
  moves = λ buf off v off' h. ground arith;
  ends = λ buf off h. ground arith;
}

pub byte_at-Steps : Steps 1 byte_at
unfolding byte_at
byte_at-Steps = record {
  moves = λ buf off v off' h. ground arith;
  ends = λ buf off h. ground arith;
}

pub read_u8-Steps : Steps 1 read_u8
unfolding read_u8
read_u8-Steps = record { moves = byte_at-Steps.moves; ends = byte_at-Steps.ends }

pub read_u16-Steps : Steps 2 read_u16
unfolding read_u16
read_u16-Steps = record { moves = (unpack_from-Steps 2).moves; ends = (unpack_from-Steps 2).ends }

pub read_u32-Steps : Steps 4 read_u32
unfolding read_u32
read_u32-Steps = record { moves = (unpack_from-Steps 4).moves; ends = (unpack_from-Steps 4).ends }

pub read_u64-Steps : Steps 8 read_u64
unfolding read_u64
read_u64-Steps = record { moves = (unpack_from-Steps 8).moves; ends = (unpack_from-Steps 8).ends }
