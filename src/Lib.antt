-- ===== src/Lib.antt =====
-- A model of the crate `ieee802154`: the octets of IEEE 802.15.4 MAC frames, how the crate writes
-- them and how it reads them.
--
-- The parts of the program. A `Frame` (src/mac/frame/mod.rs) is a `Header`, a `FrameContent`, a
-- payload and a footer. The header (src/mac/frame/header.rs) holds the frame control field
-- (src/mac/frame/frame_control.rs), two addresses and an auxiliary security header
-- (src/mac/frame/security). The content is a `Beacon` (src/mac/beacon.rs), a `Command`
-- (src/mac/command.rs) or nothing. Each type has a `try_read`, which takes a slice to a value and
-- the number of octets it took, and a `try_write`, which takes a value and a buffer to the number of
-- octets it wrote; a body threads an `offset` through the reads and writes of its parts.
--
-- How they are modelled. Octets and integers are natural numbers, with the cut to the width of the
-- integer written out where an operation can leave it; slices and buffers are lists. `Outcome` has
-- the results `ok`, `err` and `panic`, and the readers and writers that thread the offset. A writer
-- returns the buffer as it stands afterwards. Methods keep their names; a body `try_read` is
-- `read_fields` started at offset 0, and `try_write` likewise where it is split. An array with a
-- count is a list of seven entries and the count. Loops are recursion on a list or on the number of
-- items, so no fuel is needed.
--   Base          numbers, lists, masks and shifts, flags, octets in both byte orders
--   Outcome       results, readers and writers
--   ByteLib       the crate `byte` as an interface, of which each law is documented behaviour, with
--                 the rules for readers and writers (Laws, Bounds, Yields, Spends,
--                 Confined), and an instance in ByteLib/Concrete
--   Target        integer arithmetic as a build of the crate does it
--   Errors        `DecodeError` and `EncodeError`
--   Utils         src/utils.rs
--   Address       the addresses and address modes
--   FrameControl  the frame control field
--   Security      the security control field, the auxiliary security header, the security context,
--                 the nonce, and `secure_frame` (Secure) and `unsecure_frame` (Unsecure) with the
--                 crate `ccm` and the lookups of keys and devices as interfaces; Secure/Session
--                 and Unsecure/Window have the frames that are sent and received in turn, the
--                 former with the nonce as the cipher is asked for it (Secure/Asked), the latter
--                 against an abstract window for replays; Unsecure/Authentic has what was
--                 checked where unsecuring succeeds
--   Header        the header: Write, Read, RoundTrip, Refuse (how its writer fails), Size; Valid for
--                 what is read from any octets, as in Command, Beacon and Frame, Returning for where
--                 writing that panics, and Alone, in Command and Frame, for what may stand behind it
--   Command       the nine MAC commands
--   Beacon        superframe specification, guaranteed time slots, pending addresses
--   Frame         the content of a frame; reading a frame without security (Read), writing a frame
--                 (Write), reading and unsecuring one (Unsecure), from sender to receiver
--                 (Secured), and over a channel that loses and repeats frames (Delivery)
--   Tests         the theorems at concrete inputs
-- The byte order of the host is a field of `ByteLib`, because the crate writes some integers in that
-- order. Whether integer overflow is checked, and the width of `usize`, are the record `Target`.
-- The security context and the store of the devices are passed in and returned as they are
-- afterwards, also where an operation fails; the reference that a lookup of a device returns is the
-- descriptor it refers to and an assignment to the store. `HasSpare`, `MayPrecede` and `IsSafe` are
-- conditions of the code; `IsHeader`, `IsBeacon`, `IsCommand` and their like say that the numbers
-- fit their fields on the air, and that the unused entries of an array are those that `new` puts
-- there. `IsSecurable` and `IsAdmitted` gather what sender and receiver need for a secured frame,
-- the latter the tests of `unsecure_frame` before the lookup of the device. `IsVerifying` is the
-- documented behaviour of the cipher on a tag that it did not make.
--
-- What is not modelled: the block cipher of `Unimplemented` in src/mac/frame/security/default.rs,
-- whose functions are empty and never run, because its lookup finds no key; the buffer that a failed
-- decryption leaves, at which no caller looks; the module declarations of src/lib.rs and
-- src/mac/mod.rs, which have no behaviour; derived traits other than those of `extended_enum!`.
pub mod Base
pub mod Outcome
pub mod Target
pub mod ByteLib
pub mod Errors
pub mod Utils
pub mod Address
pub mod FrameControl
pub mod Security
pub mod Header
pub mod Command
pub mod Beacon
pub mod Frame
pub mod Tests
