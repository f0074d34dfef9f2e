-- ===== src/Steg.antt =====
-- The steganography modules under src/steg that hide a message in a file or in a cookie, and the cache of
-- the files. `Memory` is what they do to a file in memory, `Text` the search for text in it; the other
-- children are the modules.
pub mod Memory
pub mod Js
pub mod Gif
pub mod Jpg
pub mod Cookies
pub mod Text
pub mod Pdf
pub mod Png
pub mod PayloadLruCache
mod Tests
