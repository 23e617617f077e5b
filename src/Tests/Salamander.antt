-- ===== src/Tests/Salamander.antt =====
-- The Salamander masking of protocol/hysteria on a concrete input. The key stream of the tests is the
-- key and the salt, one behind the other.
use rabbit_digger_pro.Base.{◌+◌, ◌<◌, ◌≡◌, refl, [], ◌∷◌, ◌++◌, some, none, Bytes, length}
use rabbit_digger_pro.Base.Optional.{◌>>=◌}
use rabbit_digger_pro.Hysteria.Salamander.{encode_packet, try_send, poll_recv, poll_recv-try_send}

joined_key : Bytes → Bytes → Bytes
joined_key salt key = key ++ salt

abbrev salt : Bytes
salt = 1 ∷ 2 ∷ 3 ∷ 4 ∷ 5 ∷ 6 ∷ 7 ∷ 8 ∷ []

masked : encode_packet joined_key salt (0xff ∷ []) (0x0f ∷ 0x10 ∷ []) ≡ salt ++ 0xf0 ∷ 0x11 ∷ []
unfolding encode_packet joined_key
masked = refl

poll_recv-try_send_example :
    ((do
      wire ← try_send joined_key (some (9 ∷ [])) salt none (b'h' ∷ b'i' ∷ [])
      poll_recv joined_key (some (9 ∷ [])) wire)
      ≡ some (b'h' ∷ b'i' ∷ []))
    × (try_send joined_key (some (9 ∷ [])) salt (some 1200) (b'h' ∷ b'i' ∷ []) ≡ none)
    × ((k : Bytes) → length salt < 8 → poll_recv joined_key (some k) salt ≡ none)
    × ((k up : Bytes) → poll_recv joined_key (some k) salt ≡ some up → length up + 8 ≡ length salt)
poll_recv-try_send_example =
    poll_recv-try_send joined_key (some (9 ∷ [])) salt (b'h' ∷ b'i' ∷ []) salt 1200 refl
