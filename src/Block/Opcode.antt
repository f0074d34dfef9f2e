-- ===== src/Block/Opcode.antt =====
-- `opcode_t` of src/protocol/chop_blk.h: a number of eight bits. These are its named values.
use stegotorus.Common.{ℕ, Bool, ◌&&◌, ◌||◌, leb, ltb}

abbrev pub xxx : ℕ
xxx = 0

abbrev pub dat : ℕ
dat = 1

abbrev pub fin : ℕ
fin = 2

abbrev pub rst : ℕ
rst = 3

abbrev pub ack : ℕ
ack = 4

abbrev pub reserved0 : ℕ
reserved0 = 5

abbrev pub steg0 : ℕ
steg0 = 128

abbrev pub steg_fin : ℕ
steg_fin = 129

abbrev pub last : ℕ
last = 255

abbrev pub opcode_valid : ℕ → Bool
opcode_valid o = (ltb xxx o && ltb o reserved0) || (leb steg0 o && leb o last)
