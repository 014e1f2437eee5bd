-- ===== src/Ftp/Session/Login.antt =====
-- `auth` of ftp_client.cpp against `AUTHENCIATION::check` of ftp_server.cpp: who gets in.
use networking_labs.Prelude.{
  ℕ, suc, ◌-◌, ◌≡◌, ◌↔◌, ◌==◌, refl, sym, ap, ◌∙◌, List, [], ◌∷◌, ◌++◌, Bool, true, false, ◌&&◌,
  if◌then◌else◌, All, All-append, arith,
}
use networking_labs.Ftp.{empty_datagram}
use networking_labs.Prelude.Bytes.{is_space, skip_spaces}
use networking_labs.Ftp.Text.{
  IsText, IsWord, c_str-text, word-IsText, eq_bytes, eq_bytes_iff, extract, extract_two,
  extract_blank,
}
use networking_labs.Ftp.Kinds.{
  auth_request, auth_reply, auth_reply_type, open_conn_request, open_conn_reply,
}
use networking_labs.Ftp.Server.{Server, serve, reacts, check, uid, pass}
use networking_labs.Ftp.Client.{
  Client, Talk, goes_on, leaves, writes, reads, client_round, run_cmd, check_cmd, with_word,
  on_auth, auth_sucess, auth_fail, word_auth,
}
use networking_labs.Ftp.Session.{met, converse, IsIdle}
use networking_labs.Ftp.Session.Serving.{IsIdle-next, serve-auth_request, serve-open_conn_request}

-- What the server says of a user name and a password.
abbrev pub are_right : List ℕ → List ℕ → Bool
are_right user word = eq_bytes uid user && eq_bytes pass word

pub are_right_iff :
    (user word : List ℕ) → (are_right user word ≡ true) ↔ ((user ≡ uid) × (word ≡ pass))
are_right_iff user word =
    let u = eq_bytes_iff uid user in
    let w = eq_bytes_iff pass word in both (eq_bytes uid user) (eq_bytes pass word) u w
  where
    both :
        (a b : Bool)
        → (a ≡ true) ↔ (uid ≡ user)
        → (b ≡ true) ↔ (pass ≡ word)
        → ((a && b) ≡ true) ↔ ((user ≡ uid) × (word ≡ pass))
    both true b u w = ((λ h. (sym (u.0 refl), sym (w.0 h))), λ h. w.1 (sym h.1))
    both false b u w = ((λ h. ground (arith, h)), λ h. u.1 (sym h.0))

check-two :
    (user word : List ℕ) (s : Server)
    → IsWord user
    → IsWord word
    → check (user ++ 32 ∷ word) s
      ≡ record s { iuid = user; ipass = word; auth_pass = are_right user word }
unfolding check
check-two user word s hu hw =
    let (first, second) = extract_two s.iuid s.ipass user word hu hw in rw (first, second) refl

auth-IsText : (user word : List ℕ) → IsWord user → IsWord word → IsText (user ++ 32 ∷ word)
auth-IsText user word hu hw =
    All-append _ user (32 ∷ word) (word-IsText user hu.0) ((ground arith), word-IsText word hw.0)

module _ (listing user word : List ℕ) (args : List (List ℕ)) (connected : Bool) (c : Client)
    (s : Server) (n : ℕ) where
  auth_talk : Talk
  auth_talk = writes (auth_request (user ++ 32 ∷ word)) (
      reads (λ reply.
        if reply.hd.m_type == auth_reply_type && reply.hd.m_status == 1
        then goes_on (auth_sucess c)
        else leaves (auth_fail c)))

  client_round-auth :
      c.clnt_conn ≡ true
      → c.clnt_auth ≡ false
      → IsText (user ++ 32 ∷ word)
      → client_round connected c (word_auth ∷ user ∷ word ∷ args) ≡ auth_talk
  unfolding client_round run_cmd check_cmd on_auth with_word eq_bytes auth_talk
  client_round-auth conn fresh text = rw (conn, fresh, with_word, c_str-text _ text) refl

  answered :
      (ok : Bool) (t : Server)
      → converse listing
          (if (auth_reply ok).hd.m_type == auth_reply_type && (auth_reply ok).hd.m_status == 1
            then goes_on (auth_sucess c)
            else leaves (auth_fail c))
          t
          []
        ≡ met (if ok then auth_sucess c else auth_fail c) t [] ok
  unfolding converse empty_datagram
  answered true t = refl
  answered false t = refl

  -- `auth` with two words, from a connected client that is not logged in to a server that waits
  -- for requests, logs the client in just when they are the user and the password, and otherwise
  -- the client leaves; the server keeps the same outcome, and its files.
  pub auth_grants :
      c.clnt_conn ≡ true
      → c.clnt_auth ≡ false
      → IsIdle (suc n) s
      → IsWord user
      → IsWord word
      → (ok : Bool) × (s' : Server) × (converse listing
            (client_round connected c (word_auth ∷ user ∷ word ∷ args))
            s
            []
          ≡ met (if ok then auth_sucess c else auth_fail c) s' [] ok)
        × (s'.auth_pass ≡ ok)
        × (s'.files ≡ s.files)
        × IsIdle n s'
        × ((ok ≡ true) ↔ ((user ≡ uid) × (word ≡ pass)))
  unfolding converse auth_talk
  auth_grants conn fresh idle hu hw =
      let checked =
        check-two user word (record s { wait_times_lim = s.wait_times_lim - 1 }) hu hw in
      let text = auth-IsText user word hu hw in
      let served = serve-auth_request listing s (suc n) idle (user ++ 32 ∷ word) text in
      let ok = are_right user word in
      (
        ok,
        record s {
          wait_times_lim = s.wait_times_lim - 1;
          iuid = user;
          ipass = word;
          auth_pass = ok;
        },
        rw (client_round-auth conn fresh text, converse, served, checked) (answered ok _),
        refl,
        refl,
        IsIdle-next n s idle idle.nothing_stored idle.still_there refl,
        are_right_iff user word,
      )

check-blank :
    (blank : List ℕ) (s : Server)
    → All (λ b. is_space b ≡ true) blank
    → s.iuid ≡ uid
    → s.ipass ≡ pass
    → (check blank s).auth_pass ≡ true
unfolding check eq_bytes extract skip_spaces
check-blank blank s spaces user word = rw (extract_blank s.iuid blank spaces, user, word) refl

uid-IsWord : IsWord uid
unfolding is_space
uid-IsWord = (ground arith, ground arith)

pass-IsWord : IsWord pass
unfolding is_space
pass-IsWord = (ground arith, ground arith)

-- Once the right user and password have come, an OPEN withdraws the login, but an AUTH of nothing
-- but spaces that follows is granted; for a server that waits for requests.
pub stale_auth :
    (listing blank : List ℕ) (s : Server)
    → IsIdle 2 s
    → IsText blank
    → All (λ b. is_space b ≡ true) blank
    → (s1 : Server) × (s2 : Server) × (s3 : Server) × (serve listing s
          (auth_request (uid ++ 32 ∷ pass))
        ≡ reacts s1 (auth_reply true ∷ []))
      × (serve listing s1 open_conn_request ≡ reacts s2 (open_conn_reply 1 ∷ []))
      × (s2.auth_pass ≡ false)
      × (serve listing s2 (auth_request blank) ≡ reacts s3 (auth_reply true ∷ []))
unfolding eq_bytes
stale_auth listing blank s idle text spaces =
    let counted = record s { wait_times_lim = s.wait_times_lim - 1 } in
    let s1 = record counted { iuid = uid; ipass = pass; auth_pass = true } in
    let s2 = record s1 { wait_times_lim = s1.wait_times_lim - 1; auth_pass = false } in
    let s3 = check blank (record s2 { wait_times_lim = s2.wait_times_lim - 1 }) in
    let idle1 = IsIdle-next 1 s {t = s1} idle idle.nothing_stored idle.still_there refl in
    let idle2 = IsIdle-next 0 s1 {t = s2} idle1 idle.nothing_stored idle.still_there refl in
    let granted =
      check-blank blank (record s2 { wait_times_lim = s2.wait_times_lim - 1 }) spaces refl refl in
    (
      s1,
      s2,
      s3,
      serve-auth_request listing s 2 idle _ (auth-IsText uid pass uid-IsWord pass-IsWord)
          ∙ ap (λ t. reacts t (auth_reply t.auth_pass ∷ []))
              (check-two uid pass counted uid-IsWord pass-IsWord),
      serve-open_conn_request listing s1 1 idle1,
      refl,
      serve-auth_request listing s2 0 idle2 blank text
          ∙ ap (λ ok. reacts s3 (auth_reply ok ∷ [])) granted,
    )
