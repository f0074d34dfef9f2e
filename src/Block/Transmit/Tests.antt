-- ===== src/Block/Transmit/Tests.antt =====
-- Runs of the transmit queue (src/protocol/chop_blk.cc) at concrete inputs.
use stegotorus.Common.{
  ℕ, ◌≤◌, ◌<◌, ◌≡◌, refl, arith, true, false, ◌==◌, if◌then◌else◌, none, some, [], ◌∷◌, returns,
}
use stegotorus.Common.{take, drop}
use stegotorus.Common.Evbuffer.{Bytes, plain, plain-IsReliable}
use stegotorus.Block.Transmit.{GcmEncryptor, transmit}
use stegotorus.Block.Transmit.Send.{decode-transmit}
use stegotorus.Block.Header.{BlockCipher, decode, invalid}
use stegotorus.Block.Ack.{AckPayload, received}
use stegotorus.Block.Transmit.{TransmitQueue, enqueue, apply_ack, finish_ack, release, discard}
use stegotorus.Block.Transmit.Discard.{held, IsWindow, Acked, apply_ack-Acked}
use stegotorus.Block.Transmit.Window.{enqueue-IsWindow}

-- Blocks 254 to 257 are out, so that the last two have gone round.
abbrev four_out : TransmitQueue
four_out = record {
  cbuf = λ i. record { hdr = invalid; contents = some (i ∷ []) };
  next_to_ack = 254;
  next_to_send = 258;
  overwrite_allowed = false;
}

four_out-IsWindow : IsWindow four_out
four_out-IsWindow = omega arith

-- Up to 254, and 256 past it.
abbrev ack_254 : AckPayload
ack_254 = record { hsn = 254; maxusedbyte = 1; window = λ i. if i == 0 then 2 else 0 }

apply_ack-Acked_example :
    ((apply_ack ack_254 four_out).0 ≡ true) × Acked ack_254 four_out (apply_ack ack_254 four_out).1
apply_ack-Acked_example =
    apply_ack-Acked ack_254 four_out four_out-IsWindow (omega arith) (omega arith)

-- Blocks 255 and 257 stay.
held-apply_ack :
    (held (apply_ack ack_254 four_out).1 254 ≡ none)
    × (held (apply_ack ack_254 four_out).1 255 ≡ some (255 ∷ []))
    × (held (apply_ack ack_254 four_out).1 256 ≡ none)
    × (held (apply_ack ack_254 four_out).1 257 ≡ some (1 ∷ []))
unfolding apply_ack finish_ack release discard received
held-apply_ack = (refl, refl, refl, refl)

enqueue-IsWindow_example :
    (r : TransmitQueue) × (enqueue four_out 1 (8 ∷ 9 ∷ []) 3 ≡ returns (258, r))
    × IsWindow r
    × (r.next_to_send ≡ 259)
    × (r.cbuf 2 ≡ record {
      hdr = record { s = 258; d = 2; p = 3; f = 1; r = 0 };
      contents = some (8 ∷ 9 ∷ []);
    })
    × ((s : ℕ) → 254 ≤ s → s < 258 → held r s ≡ held four_out s)
enqueue-IsWindow_example =
    enqueue-IsWindow four_out 1 (8 ∷ 9 ∷ []) 3 four_out-IsWindow (omega arith) (omega arith) refl
      (omega arith)

-- Ciphers that change nothing; the tag is left out.
abbrev identity : BlockCipher
identity = record { encrypt = λ b. b; decrypt = λ b. b }

abbrev unsealed : GcmEncryptor
unsealed payload nonce = payload

abbrev one_out : TransmitQueue
one_out = record {
  cbuf = λ i. record {
    hdr = record { s = 6; d = 2; p = 1; f = 1; r = 0 };
    contents = some (8 ∷ 9 ∷ []);
  };
  next_to_ack = 6;
  next_to_send = 7;
  overwrite_allowed = false;
}

decode-transmit_example :
    (block : Bytes) × (transmit plain identity unsealed one_out 6 (5 ∷ [])
      ≡ returns (some (5 ∷ block)))
    × (decode identity 0 (take 16 block) 3 ≡ record { s = 6; d = 2; p = 1; f = 1; r = 0 })
    × (some (drop 16 block) ≡ some (8 ∷ 9 ∷ 0 ∷ []))
decode-transmit_example =
    decode-transmit plain plain-IsReliable identity unsealed (λ b nonce. some b) one_out 6 0 3
      (5 ∷ []) (8 ∷ 9 ∷ []) (λ b h. refl) (λ b h. h) (λ b nonce. refl) refl refl refl (omega arith)
