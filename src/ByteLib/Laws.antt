-- ===== src/ByteLib/Laws.antt =====
-- What readers and writers do to a slice, as rules that compose.
pub mod Reading
pub mod Writing
pub mod Integers
pub use Reading.{
  Reads, Reads-pure, Reads-lift, Reads-start, Reads-bind, Reads-map, Reads-decode, Fails,
  Fails-here, Fails-bind, Fails-start, failure,
}
pub use Writing.{
  Writes, Encodes, put, Encodes-put, Writes-skip, Encodes-start, Writes-then, Stops, Stops-start,
  Stops-then, Stops-here,
}
pub use Integers.{
  read_int, write_int, Reads-read, Reads-octets, Reads-int, Writes-write, Encodes-int, Writes-int,
  Writes-slice, Reads-int_as, check_rest, Reads-check_rest, Fails-check_rest, Reads-u8, Writes-u8,
}
