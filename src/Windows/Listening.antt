-- ===== src/Windows/Listening.antt =====
-- The pipes that wait for clients: `init` makes them.
use why.Base.{
  ◌*◌, ap₂, append-nil, append_assoc, ℕ, zero, suc, ◌+◌, ◌^◌, ◌≤◌, ◌<◌, ◌≡◌, refl, subst, ◌∙◌, Bool,
  true, List, [], ◌∷◌, ◌++◌, length, length-append, length-set, length-replicate, Option, none,
  some, lt→ltb, ℤ, set, ok, arith,
}
use why.Base.Memory.{Block, store, malloc}
use why.Base.Starts.{Starts, Starts-set}
use why.ArrayList.{init_list}
use why.ArrayList.Refine.{Holds, init_list-Holds}
use why.Proc.{init_process_list}
use why.Queue.Refine.{init_queue-Holds, Holds as Waiting}
use why.Request.Pending.{init_request_queue}
use why.Server.{Buffers}
use why.Windows.{WindowsServer, System}
use why.Windows.Clients.{create_server_socket}
use why.Windows.Loop.{create_sockets, init}
use why.Windows.Keys.{keygen, to_ms_key}

abbrev pub numbers_from : ℕ → ℕ → List ℕ
numbers_from k zero = []
numbers_from k (suc n) = k ∷ numbers_from (k + 1) n

abbrev pub handles_from : (ℕ → ℤ) → ℕ → ℕ → List ℤ
handles_from h p zero = []
handles_from h p (suc n) = h p ∷ handles_from h (p + 1) n

-- The system has a pipe for each call, and begins to wait for its client.
pub record Listens (os : System) (handle : ℕ → ℤ) : Type 0 where
  pub pipe : (n : ℕ) → os.pipe n ≡ some (handle n)
  pub connects : (n : ℕ) → os.connects n ≡ true

module _ (os : System) (handle : ℕ → ℤ) (l : Listens os handle) where
  create_sockets-Starts :
      (n i : ℕ) (s : WindowsServer) (ks : List ℕ) (hs : List ℤ)
      → length ks ≡ i
      → length hs ≡ i
      → i + n ≤ length s.server_key
      → i + n ≤ length s.server_socket
      → s.gen_key + n < 2 ^ 29
      → Starts s.server_key ks
      → Starts s.server_socket hs
      → (keys : Block ℕ) × (sockets : Block ℤ) × (create_sockets os n i s
          ≡ ok (record s {
            server_key = keys;
            server_socket = sockets;
            gen_key = s.gen_key + n;
            pipes = s.pipes + n;
          }))
        × (length keys ≡ length s.server_key)
        × Starts keys (ks ++ numbers_from s.gen_key n)
        × Starts sockets (hs ++ handles_from handle s.pipes n)
  unfolding create_sockets create_server_socket keygen to_ms_key store
  create_sockets-Starts zero i s ks hs lk lh rk rh low sk sh = (
    s.server_key,
    s.server_socket,
    ap₂ (λ g p. ok (record s { gen_key = g; pipes = p })) (omega arith) (omega arith),
    refl,
    rw (append-nil ks) sk,
    rw (append-nil hs) sh,
  )
  create_sockets-Starts (suc n) i s ks hs lk lh rk rh low sk sh =
      let keys = set s.server_key i (some s.gen_key) in
      let sockets = set s.server_socket i (some (handle s.pipes)) in
      let n₁ = length-append ks (s.gen_key ∷ []) in
      let n₂ = length-append hs (handle s.pipes ∷ []) in
      let m₁ = length-set s.server_key i (some s.gen_key) in
      let m₂ = length-set s.server_socket i (some (handle s.pipes)) in
      let s₁ = record s {
        server_key = keys;
        server_socket = sockets;
        gen_key = s.gen_key + 1;
        pipes = s.pipes + 1;
      } in
      let (keys', sockets', e, same, sk', sh') =
        create_sockets-Starts n (i + 1) s₁ (ks ++ (s.gen_key ∷ [])) (hs ++ (handle s.pipes ∷ []))
          (omega (arith, n₁)) (omega (arith, n₂)) (omega (arith, m₁)) (omega (arith, m₂))
          (omega arith)
          (subst (λ j. Starts (set s.server_key j (some s.gen_key)) (ks ++ (s.gen_key ∷ []))) lk
            (Starts-set s.server_key ks s.gen_key (omega arith) sk))
          (subst
            (λ j.
              Starts (set s.server_socket j (some (handle s.pipes))) (hs ++ (handle s.pipes ∷ [])))
            lh (Starts-set s.server_socket hs (handle s.pipes) (omega arith) sh)) in
      (
        keys',
        sockets',
        rw
            (
              lt→ltb (s.gen_key + 1) (2 ^ 31) (omega arith),
              l.pipe s.pipes,
              lt→ltb (s.gen_key * 2 + 0) (2 ^ 31) (omega arith),
              lt→ltb i (length s.server_socket) (omega arith),
              lt→ltb i (length s.server_key) (omega arith),
              l.connects s.pipes,
            )
            (e
              ∙ ap₂
                  (λ g p. ok (record s {
                    server_key = keys';
                    server_socket = sockets';
                    gen_key = g;
                    pipes = p;
                  }))
                  (omega arith) (omega arith)),
        same ∙ m₁,
        subst (Starts keys') (append_assoc ks (s.gen_key ∷ []) (numbers_from (s.gen_key + 1) n))
            sk',
        subst (Starts sockets')
            (append_assoc hs (handle s.pipes ∷ []) (handles_from handle (s.pipes + 1) n)) sh',
      )

  -- If the system has the pipes, `init` returns with `parallel` of them waiting under the keys from 1
  -- on, and with no client, no process and no request.
  pub init-waits :
      (parallel : ℕ) (single_client : Bool) (buffers : ℕ → Buffers)
      → 0 < parallel
      → parallel < 2 ^ 28
      → (s : WindowsServer) × (init os parallel single_client buffers ≡ ok s)
        × (s.parallel ≡ parallel)
        × (length s.server_key ≡ parallel)
        × Starts s.server_key (numbers_from 1 parallel)
        × Starts s.server_socket (handles_from handle 0 parallel)
        × Holds s.clients []
        × Holds s.processes []
        × Waiting s.queue []
  unfolding init init_request_queue init_process_list
  init-waits parallel single_client buffers some_n low =
      let (queue, e, h) = init_queue-Holds 100 (omega arith) (omega arith) in
      let s : WindowsServer = record {
        clients = init_list parallel;
        buffers = buffers;
        processes = init_list parallel;
        queue = queue;
        server_key = malloc parallel;
        server_socket = malloc parallel;
        gen_key = 1;
        parallel = parallel;
        single_client = single_client;
        pipes = 0;
        launches = 0;
        effects = [];
      } in
      let (keys, sockets, e', size, sk, sh) =
        create_sockets-Starts parallel 0 s [] [] refl refl
          (omega (arith, length-replicate {A = Option ℕ} parallel none))
          (omega (arith, length-replicate {A = Option ℤ} parallel none)) (omega arith) tt tt in
      (
        record s {
          server_key = keys;
          server_socket = sockets;
          gen_key = 1 + parallel;
          pipes = 0 + parallel;
        },
        rw e e',
        refl,
        size ∙ length-replicate parallel none,
        sk,
        sh,
        init_list-Holds parallel some_n (omega arith),
        init_list-Holds parallel some_n (omega arith),
        h,
      )
