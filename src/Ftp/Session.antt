-- ===== src/Ftp/Session.antt =====
-- A command of ftp_client.cpp in conversation with the loop of ftp_server.cpp. Every datagram that
-- one end writes comes to the other whole and in order; Bytes and Whole are about the bytes.
pub mod Serving
pub mod Transfer
pub mod Login
pub mod Guard
pub mod Wire
pub mod Requests
pub mod Bytes
pub mod Whole
use networking_labs.Prelude.{
  ℕ, ◌+◌, ◌<◌, ◌≡◌, List, [], ◌∷◌, ◌++◌, Option, none, some, Bool, true, false,
}
use networking_labs.Ftp.{Datagram}
use networking_labs.Ftp.Server.{Server, Reaction, reacts, overread, hangs, serve}
use networking_labs.Ftp.Client.{Client, Talk, goes_on, leaves, writes, reads}

-- How a round of the client ends: both ends, what the server has written that has not been read,
-- and whether the client goes on; or neither end gets further.
pub data Meeting : Type 0 where
  met : Client → Server → List Datagram → Bool → Meeting
  stuck : Meeting

unfoldable pub converse : List ℕ → Talk → Server → List Datagram → Meeting
converse listing (goes_on c) s inbox = met c s inbox true
converse listing (leaves c) s inbox = met c s inbox false
converse listing (writes d talk) s inbox = elim (serve listing s d) [
  | reacts s' out ↦ converse listing talk s' (inbox ++ out)
  | overread ↦ stuck
  | hangs ↦ stuck
]
converse listing (reads talk) s [] = stuck
converse listing (reads talk) s (d ∷ inbox) = converse listing (talk d) s inbox
converse listing Talk.overread s inbox = stuck
converse listing Talk.hangs s inbox = stuck

-- The server waits for a request, and will for n more.
pub record IsIdle (n : ℕ) (s : Server) : Type 0 where
  pub nothing_stored : s.storing ≡ none
  pub still_there : s.left ≡ false
  pub rounds_left : n + 1 < s.wait_times_lim

-- The client is logged in.
pub record IsLoggedIn (c : Client) : Type 0 where
  pub connected : c.clnt_conn ≡ true
  pub authenticated : c.clnt_auth ≡ true
