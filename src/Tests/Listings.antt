-- ===== src/Tests/Listings.antt =====
-- The theorems on the pages of sessions and the chunks of a history at concrete values.
use igrill_remote_server.Prelude.{
  ℕ, ◌*◌, ◌≡◌, pos, String, true, none, some, List, [], ◌∷◌, map, All, length, take, drop,
}
use mathlib.Core.List.{Perm}
use igrill_remote_server.Json.{end}
use igrill_remote_server.Store.{Session}
use igrill_remote_server.Store.Listings.{HistoryItem, summary}
use igrill_remote_server.Store.Listings.Pages.{pages, IsLatestFirst, pages-list_sessions}
use igrill_remote_server.Server.Reads.{chunk_limit, answer_history}
use igrill_remote_server.Server.Chunks.{joined, Fits, answer_history-Fits}
use igrill_remote_server.Tests.{cooking}
use igrill_remote_server.Tests.Messages.{asked, server}

two_pages :
    (listing : List Session) × Perm listing cooking.sessions
    × IsLatestFirst listing
    × ((n offset : ℕ)
        → pages 1 cooking n offset ≡ map (summary cooking) (take (n * 1) (drop offset listing)))
two_pages = pages-list_sessions 1 cooking

abbrev item : ℕ → String → HistoryItem ℕ
item seq ts = record {
  probe = record {
    id = seq;
    session_id = "s";
    address = "d";
    recorded_at = ts;
    seq = seq;
    probe_index = pos 1;
    temperature = some 50;
  };
  device = none;
}

abbrev items : List (HistoryItem ℕ)
items = item 1 "Ti" ∷ item 2 "Tii" ∷ item 3 "Tiii" ∷ []

three_in_chunks_of_two :
    let r = answer_history (asked true end) (chunk_limit (pos 2)) (some "s") items server in
    (joined r.chunks ≡ items)
    × All (Fits (chunk_limit (pos 2))) r.chunks
    × (r.count ≡ length (joined r.chunks))
three_in_chunks_of_two = answer_history-Fits (asked true end) (pos 2) (some "s") items server
