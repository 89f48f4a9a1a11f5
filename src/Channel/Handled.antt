-- ===== src/Channel/Handled.antt =====
-- The handlers of src/channel.c against the events that the session waits for.
