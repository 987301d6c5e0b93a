-- ===== src/Multicat.antt =====
-- multicat.c. A stream file and its auxiliary file are their bytes; a descriptor is an offset into them.
pub mod Files
pub mod Directories
pub mod RoundTrip
pub mod Rotation
pub mod Loop
pub mod Copying
pub mod Sockets
pub mod Reassembly
use multicat_supervisor.Base.{Bytes, ℕ, Bool}

-- A stream file and the dates of its packets.
pub record Stored : Type 0 where
  pub content : Bytes
  pub dates : Bytes

-- The file that is read, the offsets in both parts, and the static variables `i_stc`, `i_first_stc` and
-- `b_die`.
pub record Input : Type 0 where
  pub file : Stored
  pub at : ℕ
  pub aux_at : ℕ
  pub stc : ℕ
  pub first_stc : ℕ
  pub die : Bool

-- The file that is written, how much of its dates is flushed, `i_file_next_flush` and `b_die`.
pub record Output : Type 0 where
  pub file : Stored
  pub flushed : ℕ
  pub next_flush : ℕ
  pub die : Bool
