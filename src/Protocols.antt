-- ===== src/Protocols.antt =====
-- server/src/protocols: the streaming protocols.
pub mod RtpSession
pub mod RtpCtrl
pub mod RtpData
pub mod Amf
pub mod RtmpRequest
pub mod RtmpSession
pub mod RtmpConnection
pub mod RtmpStream
pub mod RtmpController
