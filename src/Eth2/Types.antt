-- ===== src/Eth2/Types.antt =====
-- src/eth2/eth_types.rs: the consensus data types. Fixed arrays and `FixedVector<u8, N>` are byte
-- lists of that length, `VariableList` is a list, `BitList` and `BitVector` are lists of bits, and
-- the `u64` aliases are numbers.
mod Basic
mod Block
mod Requests
pub use Basic.*
pub use Block.*
pub use Requests.*
