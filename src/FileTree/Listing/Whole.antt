-- ===== src/FileTree/Listing/Whole.antt =====
-- `ListDir`: what a listing has, and in which order.
use mdfly.Common.Dict.{Dict}
