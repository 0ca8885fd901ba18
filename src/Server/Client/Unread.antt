-- ===== src/Server/Client/Unread.antt =====
-- server_serv_client of server.c where there is nothing to read.
use oserver.Prelude.{
  ℕ, zero, suc, ◌<◌, ◌≡◌, refl, sym, ap, ◌∙◌, Bool, true, false, Option, some, List, [], ◌∷◌, ltb,
  lt→ltb, min, if◌then◌else◌, arith, ℤ, pos, negsuc, ◌-ℤ◌,
}
use oserver.Bytes.{Buffer}
use oserver.Btree.{◌>>=◌}
use oserver.Server.Files.{Os}
use oserver.Server.Client.{
  Received, blocks, fails, receives, Connection, Client, rbuf_size, data_size, save, received, next,
  serve_loop, ending, ended, server_serv_client,
}

-- `recv` gives no byte: there is none yet, it fails, or the peer has closed the connection.
abbrev pub NoByte : Received → Type 0
NoByte blocks = Unit
NoByte fails = Unit
NoByte (receives []) = Unit
NoByte (receives (b ∷ text)) = ⊥

-- The bytes that were kept are kept, as many as there is room for.
abbrev pub KeepsBytes : Connection → Connection → Type 0
KeepsBytes conn conn' =
    (conn'.data_len ≡ min conn.data_len data_size)
    × ((i : ℕ) → i < conn'.data_len → conn'.data_buffer i ≡ conn.data_buffer i)

module _ {F : Type 0} where
  save-KeepsBytes :
      (c : Client F) (n : ℕ)
      → c.conn.data_len ≡ n
      → ((i : ℕ) → i < n → c.rbuf i ≡ c.conn.data_buffer i)
      → (conn : Connection) × (save c (pos n) ≡ some (record c { conn = conn }))
        × (conn.socket ≡ c.conn.socket)
        × KeepsBytes c.conn conn
  save-KeepsBytes c zero e same = (c.conn, refl, refl, (ground (arith, e), λ i lt. refl))
  save-KeepsBytes c (suc n) e same =
      let len = min (suc n) data_size in
      (
        record c.conn {
          data_len = len;
          data_buffer = λ i. if ltb i len then c.rbuf i else c.conn.data_buffer i;
        },
        refl,
        refl,
        (
          ap (λ (m : ℕ). min m data_size) (sym e),
          λ i lt. rw (lt→ltb i len lt) (same i (ground (arith, lt))),
        ),
      )

  module _ (os : Os F) (recv : F → ℤ → ℤ → Received × F) (root : List ℕ)
      (fuel_send garbage : ℕ) where
    -- What the call leaves of a connection with the socket `fd`, and whether `select` watches it again,
    -- by what `recv` gives: the connection goes on with its bytes, or its socket is closed.
    abbrev pub Leaves : ℕ → Connection → Received × F → Connection × Bool × F → Type 0
    Leaves fd conn (blocks, files) r =
        (r.1 ≡ true) × (r.2 ≡ files) × (r.0.socket ≡ pos fd) × KeepsBytes conn r.0
    Leaves fd conn (fails, files) r =
        (r.1 ≡ false) × (r.2 ≡ os.close_fd files fd) × (r.0.socket ≡ negsuc 0)
    Leaves fd conn (receives [], files) r =
        (r.1 ≡ false) × (r.2 ≡ os.close_fd files fd) × (r.0.socket ≡ negsuc 0)
    Leaves fd conn (receives (b ∷ text), files) r = ⊥

    closes :
        (c : Client F) (files : F) (fd : ℕ)
        → c.conn.socket ≡ pos fd
        → (ending os recv root fuel_send garbage
            (record c { files = files; keep_alive = false })
            false).2
          ≡ os.close_fd files fd
    closes c files fd e =
        ap (λ (z : ℤ). elim z [ pos fd ↦ os.close_fd files fd | negsuc n ↦ files ]) e

    received-Leaves :
        (rest : Client F → Option (Client F)) (c : Client F) (fd n : ℕ) (o : Received × F)
        → c.conn.socket ≡ pos fd
        → c.keep_alive ≡ true
        → c.remain ≡ pos n
        → c.conn.data_len ≡ n
        → ((i : ℕ) → i < n → c.rbuf i ≡ c.conn.data_buffer i)
        → NoByte o.0
        → (r : Connection × Bool × F) × (ended os recv root fuel_send garbage (
              next os recv root fuel_send garbage rest
                (received os recv root fuel_send garbage c o))
            ≡ some r)
          × Leaves fd c.conn o r
    received-Leaves rest c fd n (blocks, files) at keep e len same none =
        let after_save = λ (o : Option (Client F)).
          ended os recv root fuel_send garbage
            (next os recv root fuel_send garbage rest (o >>= λ c. some (c, true))) in
        let (conn, saved, socket, kept) = save-KeepsBytes (record c { files = files }) n len same in
        (
          (conn, true, files),
          ap (λ (z : ℤ). after_save (save (record c { files = files }) z)) e
              ∙ ap after_save saved
              ∙ ap
                  (λ (b : Bool). some (
                    ending os recv root fuel_send garbage (record c { conn = conn; files = files })
                      b))
                  keep,
          (refl, refl, socket ∙ at, kept),
        )
    received-Leaves rest c fd n (fails, files) at keep e len same none = (
      ending os recv root fuel_send garbage (record c { files = files; keep_alive = false }) false,
      refl,
      (refl, closes c files fd at, refl),
    )
    received-Leaves rest c fd n (receives [], files) at keep e len same none = (
      ending os recv root fuel_send garbage (record c { files = files; keep_alive = false }) false,
      refl,
      (refl, closes c files fd at, refl),
    )
    received-Leaves rest c fd n (receives (b ∷ text), files) at keep e len same none = absurd none

    -- Where the first `recv` on an open socket gives no byte, the call returns. If there is no byte yet,
    -- the descriptor is watched again, nothing is closed, and the connection keeps the bytes that it
    -- had, or as many of them as its array holds; if `recv` fails or the peer has closed the connection,
    -- the socket is closed with one `close` after the call of `recv`, is set to -1, and is not watched.
    pub serv_client-Leaves :
        (fuel fd : ℕ) (conn : Connection) (files : F) (rbuf : Buffer)
        → conn.socket ≡ pos fd
        → NoByte (recv files conn.socket (pos rbuf_size -ℤ pos conn.data_len)).0
        → (r : Connection × Bool × F) × (server_serv_client os recv root fuel_send garbage
              (suc fuel)
              conn
              files
              rbuf
            ≡ some r)
          × Leaves fd conn (recv files conn.socket (pos rbuf_size -ℤ pos conn.data_len)) r
    unfolding server_serv_client serve_loop
    serv_client-Leaves fuel fd conn files rbuf at none =
        received-Leaves (serve_loop os recv root fuel_send garbage fuel)
          (record {
            conn = conn;
            files = files;
            rbuf = λ i. if ltb i conn.data_len then conn.data_buffer i else rbuf i;
            remain = pos conn.data_len;
            keep_alive = true;
          })
          fd conn.data_len (recv files conn.socket (pos rbuf_size -ℤ pos conn.data_len)) at refl
          refl refl (λ i lt. rw (lt→ltb i conn.data_len lt) refl) none
