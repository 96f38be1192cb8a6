-- ===== src/Parsers/Itch/Feed.antt =====
-- A feed of length-prefixed messages, as a sender encodes it, and what `parse_file` makes of it.
