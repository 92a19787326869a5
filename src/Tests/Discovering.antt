-- ===== src/Tests/Discovering.antt =====
-- Examples for the discovery of the server.
use server_game.Base.{true, false, ℕ, ◌≡◌, ◌≢◌, refl, some, [], ◌∷◌, ◌++◌, ok, ◌>>=◌, arith}
use server_game.Base.Int.{pos}
use server_game.Base.Text.{Text, str}
use server_game.Base.Decimal.{to_string}
use server_game.Broadcast.{Urls, answer}
use server_game.Broadcast.Decode.{read, Fits}
use server_game.Broadcast.Receiver.{datagram, silence, run_broadcast_receiver}
use server_game.Broadcast.Receiver.Fresh.{answers, sent_by, run_broadcast_receiver-fresh}
use server_game.Broadcast.Receiver.Versions.{asked, discovered}

abbrev urls : Urls
urls = record {
  puller_url = str "a";
  publisher_url = str "b";
  replier_url = str "c";
  agent_url = str "d";
}

abbrev fits_one : (c : ℕ) → c ≢ 0 → Fits (c ∷ [])
fits_one c ne = (omega arith, (ne, tt))

run_broadcast_receiver-fresh_example :
    (run_broadcast_receiver urls true
        (silence false ∷ datagram false 7 [] ∷ silence true ∷ datagram false 8 [] ∷ [])
      >>= λ o. ok (sent_by o))
    ≡ ok ((7, answer urls (pos 0)) ∷ [])
unfolding answers
run_broadcast_receiver-fresh_example =
    run_broadcast_receiver-fresh urls
      (silence false ∷ datagram false 7 [] ∷ silence true ∷ datagram false 8 [] ∷ [])

discovered_example :
    (message : Text) × ((run_broadcast_receiver urls true
          (asked ((7, []) ∷ []) ++ datagram true 8 (to_string 1) ∷ [])
        >>= λ o. ok (sent_by o))
      ≡ ok (((7, answer urls (pos 0)) ∷ []) ++ (8, message) ∷ []))
    × (read 5 message ≡ some ((0xA0, str "a") ∷ (0xA1, str "b") ∷ (0xA2, str "c") ∷ []))
unfolding answers
discovered_example =
    discovered urls ((7, []) ∷ []) 8 1 [] ((7, answer urls (pos 0)) ∷ []) refl (omega arith)
      (fits_one b'a' (omega arith)) (fits_one b'b' (omega arith)) (fits_one b'c' (omega arith))
      (fits_one b'd' (omega arith))
