-- ===== src/Frame.antt =====
-- src/mac/frame/mod.rs: the frame as a whole.
pub mod Content
pub mod Read
pub mod RoundTrip
pub mod Alone
pub mod Valid
pub mod Underflow
pub mod Write
pub mod Unsecure
pub mod Secured
pub mod Delivery
use rust_ieee.Base.{List, ℕ}
use rust_ieee.Header.{Header}
use rust_ieee.Beacon.{Beacon}
use rust_ieee.Command.{Command}

pub data FooterMode : Type 0 where
  none explicit : FooterMode

-- `Default for FooterMode`.
abbrev pub default : FooterMode
default = none

-- `data_content` is `FrameContent::Data`.
pub data FrameContent : Type 0 where
  beacon : Beacon → FrameContent
  data_content acknowledgement : FrameContent
  command : Command → FrameContent

-- The footer is a list of two octets.
pub record Frame : Type 0 where
  pub header : Header
  pub content : FrameContent
  pub payload : List ℕ
  pub footer : List ℕ
