-- ===== src/SdCard.antt =====
-- target/sim/cpp/sd_card.{hpp,cpp}: an SDHC card in SPI mode 0. `Crc` has the checksum, `Command`
-- the command decoder, and `Pins` the clocked interface. Members of type `unsigned` have 32 bits.
pub mod State
pub mod Crc
pub mod Command
pub mod Pins
mod Tests
