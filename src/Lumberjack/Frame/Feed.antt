-- ===== src/Lumberjack/Frame/Feed.antt =====
-- `feed` of frame.rs: the compaction of the buffer is invisible.
use ferro_protocols.Prelude.{◌≡◌, Bytes, ◌++◌, arith, length-append, drop-append}
use ferro_protocols.Lumberjack.Frame.{FrameDecoder, feed}
use ferro_protocols.Lumberjack.Frame.View.{unread, IsValid}

module _ (d : FrameDecoder) (bytes : Bytes) (valid : IsValid d) where
  -- Feeding a valid decoder adds the bytes behind the unread ones, whether or not it compacts.
  pub unread-feed : unread (feed d bytes) ≡ unread d ++ bytes
  unfolding feed
  unread-feed = ground (arith, drop-append d.read_pos d.buf bytes valid)

  pub feed-IsValid : IsValid (feed d bytes)
  unfolding feed
  feed-IsValid = ground (arith, length-append d.buf bytes)

  pub cap-feed : (feed d bytes).max_frame_payload ≡ d.max_frame_payload
  unfolding feed
  cap-feed = ground arith
