-- ===== src/Lib.antt =====
-- ozonebase is a C++ server library for video surveillance: providers of frames, processors and
-- consumers that are linked into a network, and the protocols that carry the frames. This
-- library models the parts that carry the program's own logic, as functions on explicit states.
--
--   Prelude           names, lists and tests that all modules share
--   Libgen            server/src/libgen
--     Outcome         how a call ends: with a value, by Panic or Fatal, by an access outside the
--                     storage (fault), by an exception (thrown), or out of fuel (spent)
--     Bytes           numbers in network byte order, as htobe16, htobe64 and memcpy give them,
--                     and in the order of a little-endian machine
--     Text            text as the codes of its bytes; libgenUtils.cpp, stringtf
--     TextMap         a std::map whose keys are text, as the list of its pairs
--     Time            libgenTime.h, the operations on timeval
--     Buffer          libgenBuffer.h, the template Buffer as ByteBuffer uses it: assign, append,
--                     insert, consume, shrink, extract, size, reserve, fill and the others
--     Base64          libgenUtils.cpp, base64Encode and base64Decode
--   Libimg            server/src/libimg
--     Coord, Box      libimgCoord.h and libimgBox.h
--     Colour          libimgImage.h and the tables of Image::initialise: YUV, YUVJ and RGB
--     Raster          what counted loops over planes, rows and pixels write, for all images
--     Image           libimgImage.cpp: the class Image with clear and assign; below it
--                     Geometry (crop, flip, rotate), Samples (red to v, total), Levels (decay,
--                     boost, square), Sources (the copies from other pixel formats), Given (the
--                     constructors that use them), Convert (convert) and Delta (yDelta,
--                     and yDelta2 in Delta.Adjusted)
--   Protocols         server/src/protocols
--     RtpSession      ozRtpSession.cpp: updateSeq, updateJitter, updateRtcpData, updateRtcpStats
--     RtpCtrl         ozRtpCtrl.cpp: recvPackets, recvPacket, generateRr, generateSdes,
--                     generateBye
--     RtpData         ozRtpData.cpp: buildPacket
--     Amf             ozRtmpAmf.cpp: the encoding and decoding of AMF0 records; Amf.Access is
--                     addRecord and getRecord
--     RtmpRequest     ozRtmpRequest.cpp: a message that comes in chunks
--     RtmpSession     ozRtmpSession.cpp: buildResponse0 to 2, which divide a message into chunks,
--                     and the loop of recvRequest, which puts chunks together;
--                     RtmpSession.Commands the messages that are sent, Session the state,
--                     Handling handleRequest and recvRequest
--     RtmpConnection  ozRtmpConnection.cpp: recv with the handshake and its digests, sendResponse
--     RtmpController  ozRtmpController.cpp: the map of sessions
--     RtmpStream      ozRtmpStream.cpp: buildPacket and the sending of packets
--   Base              server/src/base
--     Controller      ozController.cpp: the streams that a controller offers
--     Feed            ozFeedProvider.cpp and ozFeedConsumer.cpp: the registration of consumers
--                     with providers on both sides, the distribution of a frame, the queues, the
--                     cleanups, checkProviders and waitForProviders
--   Consumers         server/src/consumers
--     EventRecorder   ozEventRecorder.cpp, processFrame: events, their images and stored frames
--   Processors        server/src/processors
--     InputFallback   ozInputFallback.cpp: the providers' slots, the frames of a round, the
--                     timeout
--     DelayBuffer     ozDelayBuffer.cpp: the rounds of run
--     RateLimiter     ozRateLimiter.cpp: the rounds of run, between readings of a clock
--   Tests             the theorems applied to concrete states
--
-- The int and size_t products of an image's sizes are taken to fit. What a loop writes to a new image in
-- the order of its bytes is the list of them. What an allocated block holds is the argument `fresh`.
-- A pointer into a buffer is its offset in the list of the storage's bytes. The size_t, int and
-- uint32_t arithmetic is written out with its wrap. A double of AMF0 is its bit pattern.
-- Floating point quotients and the clock are arguments of the functions that use them, as are
-- HMAC-SHA256, the random bytes of the handshake and the conversions between int and double
-- (Host and Surroundings). What a handler of RTMP sends is part of its result, and a stream that
-- is started or stopped is an entry of the session's map. A connection calls recvRequest of its
-- session with what it has read, the session decodes commands by Amf and finds streams by the
-- controller's findStream.
--
-- Fuel: the AMF0 decoder takes one unit for each record and field. The registrations of the feed
-- call one another back at most once, so that two units are enough. The loop over source
-- descriptions takes one unit for each pass, of which there may be any number. The loop over
-- chunks takes one unit for each byte of the request and one more, and the division of a message
-- one for each byte of it and one more. The loops of flip and total take one unit for each byte
-- of the image and one more, and the search for the shift of decay and boost takes 16.
--
-- Not modelled: the AMF3 half of ozRtmpAmf.cpp, what RtmpStream reads of FFmpeg's frames; locks
-- and threads, where a call is taken to run from its start to its end; sockets, files, devices;
-- the calls of FFmpeg, libjpeg and of the detectors' libraries; of images, the drawing of text and
-- shapes, blending, filters, scaling, masks, blobs and JPEG.
pub mod Prelude
pub mod Libgen
pub mod Libimg
pub mod Protocols
pub mod Base
pub mod Consumers
pub mod Processors
mod Tests
