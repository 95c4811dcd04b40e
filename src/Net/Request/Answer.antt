-- ===== src/Net/Request/Answer.antt =====
-- sdk/src/net.c: what the callback of a request gets.
use zelto_os.Prelude.{false, List, [], ◌∷◌, ◌++◌}
use zelto_os.Text.{Bytes}
use zelto_os.Net.Io.{Poll, Read, got, closed_by_peer, read_blocks}
use zelto_os.Net.Request.{Request}

abbrev pub join : List Bytes → Bytes
join [] = []
join (s ∷ ss) = s ++ join ss

-- A poll round that reads these pieces and then would block.
abbrev pub reads_of : List Bytes → List Read
reads_of [] = read_blocks ∷ []
reads_of (s ∷ ss) = got s ∷ reads_of ss

abbrev pub round : List Bytes → Poll
round ss = record { so_error = false; writes = []; reads = reads_of ss }

abbrev pub joined : List (List Bytes) → Bytes
joined [] = []
joined (ss ∷ rounds) = join ss ++ joined rounds

-- The round that reads the last pieces and then finds that the server has closed the connection.
abbrev pub last_reads : List Bytes → List Read
last_reads [] = closed_by_peer ∷ []
last_reads (s ∷ ss) = got s ∷ last_reads ss

abbrev pub last_round : List Bytes → Poll
last_round ss = record { so_error = false; writes = []; reads = last_reads ss }

abbrev pub rounds_of : List (List Bytes) → List Bytes → List Poll
rounds_of [] last = last_round last ∷ []
rounds_of (ss ∷ rounds) last = round ss ∷ rounds_of rounds last
