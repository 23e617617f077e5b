-- ===== src/Tests/Obfs.antt =====
-- The obfuscated stream of protocol/obfs on concrete inputs.
use rabbit_digger_pro.Base.{◌≡◌, refl, [], ◌∷◌, ◌++◌, some, none, Bytes, length, arith}
use rabbit_digger_pro.Base.Decimal.{decimal}
use rabbit_digger_pro.Base.Stream.{flat, Poll, ready, room, Sink, Source, bytes, nothing}
use rabbit_digger_pro.Obfs.{
  HttpSimple, Draws, wait, done, request_head, request, write_loop, crlfs, read_buf_len,
  find_subsequence_end, ReadState, read, find_end, read_loop,
}
use rabbit_digger_pro.Obfs.Order.{unread, Keeps, find_end-find_subsequence_end}
use rabbit_digger_pro.Obfs.Progress.{read_loop_kept}
use rabbit_digger_pro.Obfs.Reads.{read_loop_early_end, read_loop_endless}
use rabbit_digger_pro.Obfs.Writes.{write_loop_twice}

plain : Bytes → Bytes
plain bs = bs

abbrev param : HttpSimple
param = record { method = b'G' ∷ []; uri = b'/' ∷ []; host = b'h' ∷ [] }

abbrev draws : Draws
draws = record { major = 58; minor = 3; key_bytes = b'k' ∷ [] }

abbrev hi : Bytes
hi = b'h' ∷ b'i' ∷ []

write_loop_twice_example :
    let inner : Sink = record { sent = []; accepts = room 200 ∷ room 2 ∷ [] } in
    write_loop plain 3 param draws wait inner hi
    ≡ some (
      ready 2,
      done,
      record { sent = ([] ++ (request_head plain param draws 2 ++ hi)) ++ hi; accepts = [] },
    )
unfolding request request_head plain decimal
write_loop_twice_example =
    write_loop_twice plain 0 200 2 param draws hi [] [] (omega arith) (omega arith)

abbrev response : Bytes
response = b'O' ∷ b'K' ∷ crlfs

abbrev pieces : Source
pieces = bytes (b'O' ∷ b'K' ∷ 13 ∷ []) ∷ bytes (10 ∷ 13 ∷ 10 ∷ b'!' ∷ []) ∷ nothing ∷ []

response_end : find_subsequence_end response crlfs ≡ some (length response)
unfolding find_subsequence_end
response_end = refl

read_loop_early_end_example :
    read_loop 2 (read []) (bytes response ∷ bytes hi ∷ []) 9
    ≡ some (ready [], ReadState.done, bytes hi ∷ [])
unfolding read_buf_len
read_loop_early_end_example =
    read_loop_early_end 0 9 response (bytes hi ∷ []) (omega arith) response_end

pieces_end : find_subsequence_end ([] ++ flat pieces) crlfs ≡ some 6
unfolding find_subsequence_end
pieces_end = refl

read_loop_kept_example :
    (x : Poll Bytes × ReadState × Source) × (read_loop 5 (read []) pieces 9 ≡ some x)
    × Keeps (unread (read []) pieces) (some x)
unfolding read_buf_len
read_loop_kept_example = read_loop_kept pieces [] 9 6 pieces_end (omega arith)

nothing_found : find_end [] ≡ none
unfolding find_subsequence_end
nothing_found = find_end-find_subsequence_end []

read_loop_endless_example : read_loop 40 (read []) [] 9 ≡ none
read_loop_endless_example = read_loop_endless 40 9 [] nothing_found
