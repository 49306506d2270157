-- ===== src/Messages.antt =====
-- wrkr-grpc/src/wire.rs and its modules coerce.rs, scalar.rs, packed.rs, map.rs, encode.rs and
-- decode.rs, with the field tables of proto.rs: gRPC messages as values, written to and read from
-- the protobuf wire format of Wire.antt.
pub mod Kinds
pub mod Decimal
pub mod Coerce
pub mod Scalar
pub mod Packed
pub mod Entries
pub mod Decode
pub mod Encode
pub mod Fixed
pub mod Fitting
pub mod ScalarTrip
pub mod Objects
pub mod FieldTrip
pub mod ListTrip
pub mod MessageTrip
pub mod RoundTrip
pub mod Readers
pub mod Fuel
pub mod Pieces
pub mod Termination
pub mod Encodable
pub mod Packing
pub mod Maps
pub mod KeyTrip
pub mod EntryTrip
pub mod MapTrip
mod Runs
