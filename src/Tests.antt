-- ===== src/Tests.antt =====
-- The theorems at inputs that meet their hypotheses, and runs of the definitions.
mod Buffers
mod Delays
mod Rates
mod Rtp
mod Amf
mod Text
mod Fallback
mod RtpPackets
mod Rtcp
mod Events
mod Feeds
mod Rtmp
mod RtmpConnections
mod Times
mod Geometry
mod Images
mod Sources
