-- ===== src/Libvirt/Guest/Files.antt =====
-- Writing a file in a guest.
use gar_virt.Prelude.{
  Bytes, All, ok, err, Result, ℕ, ◌≡◌, refl, ◌⊎◌, inl, inr, Bool, true, false, Option, none, some,
  List,
}
use gar_virt.Base64.{base64_encode, base64_decode}
use gar_virt.Base64.RoundTrip.{IsByte, decode-encode}
use gar_virt.Numeric.{ℤ}
use gar_virt.Programs.{ret, ◌>>=◌, request, on_option, run}
use gar_virt.Programs.Safety.{
  Holds, Trail, Safe, Safe-run, Safe-bind, and_then-Safe, on_option-Safe,
}
use gar_virt.Libvirt.{
  connect_failed, domain_missing, write_failed, exception, Error, default_time, read_conn,
  store_conn, open_conn, register_close, close_conn, lookup_domain, agent_command, Request, Answer,
  Event, Environment, or_error, check,
}
use gar_virt.Libvirt.Json.{JsonLibrary}
use gar_virt.Libvirt.Connection.{connect, keep_registered, get, MachineImpl, get_domain}
use gar_virt.Libvirt.Guest.{
  open_request, write_request, close_request, is_some, handle_of, close_on, close_file, write_open,
  opened, write_file,
}

-- How far the writing is. `refused`: no file was opened. In the places behind the write the flag says if
-- it was answered; `unclosed`: the domain cannot be reached any more.
pub data Place : Type 0 where
  before refused : Place
  located : ℕ → Place
  has_handle : ℕ → ℤ → Place
  written closed unclosed : Bool → ℤ → Place
  located_again : Bool → ℤ → ℕ → Place

-- Where a domain that is found leads, and one that is not.
abbrev pub found : Place → ℕ → Place
found before domain = located domain
found (written b handle) domain = located_again b handle domain
found place domain = place

abbrev pub given_up : Place → Place
given_up before = refused
given_up (written b handle) = unclosed b handle
given_up place = place

module _ (json : JsonLibrary) (machine : MachineImpl) (path content : Bytes) where
  -- What may be asked at a place, and where the answer leads.
  pub data FileStep : Place → (q : Request) → Answer q → Place → Type 0 where
    -- The connection.
    reads : (p : Place) (r : Option ℕ) → FileStep p read_conn r p
    opens : (p : Place) (conn : ℕ) → FileStep p (open_conn machine.uri) (some conn) p
    not_opens : (p : Place) → FileStep p (open_conn machine.uri) none (given_up p)
    hooks : (p : Place) (conn : ℕ) → FileStep p (register_close conn) true p
    not_hooks : (p : Place) (conn : ℕ) → FileStep p (register_close conn) false (given_up p)
    stores : (p : Place) (conn : ℕ) → FileStep p (store_conn conn) tt p
    drops : (p : Place) (conn : ℕ) → FileStep p (close_conn conn) tt p
    -- The domain.
    finds :
        (p : Place) (conn domain : ℕ)
        → FileStep p (lookup_domain conn machine.domain_name) (some domain) (found p domain)
    not_finds :
        (p : Place) (conn : ℕ)
        → FileStep p (lookup_domain conn machine.domain_name) none (given_up p)
    -- The file.
    opens_file :
        (domain : ℕ) (reply : Bytes) (handle : ℤ)
        → handle_of json reply ≡ some handle
        → FileStep
            (located domain)
            (agent_command domain (json.serialize (open_request path)) default_time)
            (some reply)
            (has_handle domain handle)
    not_opens_file :
        (domain : ℕ) (r : Option Bytes)
        → ((reply : Bytes) → r ≡ some reply → handle_of json reply ≡ none)
        → FileStep
            (located domain)
            (agent_command domain (json.serialize (open_request path)) default_time)
            r
            refused
    writes_file :
        (domain : ℕ) (handle : ℤ) (buffer : Bytes) (r : Option Bytes)
        → base64_decode buffer ≡ ok content
        → FileStep
            (has_handle domain handle)
            (agent_command domain (json.serialize (write_request handle buffer)) default_time)
            r
            (written (is_some r) handle)
    closes_file :
        (b : Bool) (domain : ℕ) (handle : ℤ) (r : Option Bytes)
        → FileStep
            (located_again b handle domain)
            (agent_command domain (json.serialize (close_request handle)) default_time)
            r
            (closed b handle)

  abbrev AtConn : Place → Result Error ℕ → Place → Type 0
  AtConn p (ok conn) p' = p' ≡ p
  AtConn p (err e) p' = p' ≡ given_up p

  abbrev AtDomain : Place → Result Error ℕ → Place → Type 0
  AtDomain p (ok domain) p' = p' ≡ found p domain
  AtDomain p (err e) p' = p' ≡ given_up p

  connect-Safe : (p : Place) → Safe FileStep ⊥ (connect machine.uri) p (AtConn p)
  connect-Safe p = go
    where
      go :
          (r : Option ℕ)
          → (p' : Place) × FileStep p (open_conn machine.uri) r p'
            × AtConn p (or_error connect_failed r) p'
      go none = (given_up p, not_opens p, refl)
      go (some conn) = (p, opens p conn, refl)

  register-Safe :
      (p : Place) (conn : ℕ) (r : Bool)
      → (p' : Place) × FileStep p (register_close conn) r p'
        × Safe FileStep ⊥ (keep_registered conn r) p' (AtConn p)
  register-Safe p conn true = (p, hooks p conn, (λ _. (p, stores p conn, refl)))
  register-Safe p conn false =
      (given_up p, not_hooks p conn, (λ _. (given_up p, drops (given_up p) conn, refl)))

  get-Safe : (p : Place) → Safe FileStep ⊥ (get machine.uri) p (AtConn p)
  unfolding get
  get-Safe p = λ held. (
    p,
    reads p held,
    on_option-Safe FileStep ⊥ (AtConn p) held _ _ p
        (λ _.
          and_then-Safe FileStep ⊥ (AtConn p) (AtConn p) (connect machine.uri)
            (λ conn. request (register_close conn) >>= keep_registered conn) p (connect-Safe p)
            (λ conn p' at. rw at (register-Safe p conn)) (λ e p' at. at))
        (λ conn _. refl),
  )

  get_domain-Safe : (p : Place) → Safe FileStep ⊥ (get_domain machine) p (AtDomain p)
  unfolding get_domain
  get_domain-Safe p =
      and_then-Safe FileStep ⊥ (AtConn p) (AtDomain p) (get machine.uri) _ p (get-Safe p)
        (λ conn p' at. rw at (go conn)) (λ e p' at. at)
    where
      go :
          (conn : ℕ) (r : Option ℕ)
          → (p' : Place) × FileStep p (lookup_domain conn machine.domain_name) r p'
            × AtDomain p (or_error (domain_missing machine.domain_name) r) p'
      go conn none = (given_up p, not_finds p conn, refl)
      go conn (some domain) = (found p domain, finds p conn domain, refl)

  -- Where a file that was opened is left.
  abbrev pub Closed : Bool → Place → Type 0
  Closed b p = (handle : ℤ) × ((p ≡ closed b handle) ⊎ (p ≡ unclosed b handle))

  abbrev pub AtEnd : Result Error (Unit {0}) → Place → Type 0
  AtEnd (ok u) p = Closed true p
  AtEnd (err e) p = (p ≡ refused) ⊎ Closed false p

  close_file-Safe :
      (b : Bool) (handle : ℤ)
      → Safe FileStep ⊥ (close_file json machine handle) (written b handle) (λ _ p. Closed b p)
  unfolding close_file
  close_file-Safe b handle =
      Safe-bind FileStep ⊥ (AtDomain (written b handle)) (λ _ p. Closed b p) (get_domain machine)
        (close_on json handle) (written b handle) (get_domain-Safe (written b handle)) go
    where
      go :
          (r : Result Error ℕ) (p : Place)
          → AtDomain (written b handle) r p
          → Safe FileStep ⊥ (close_on json handle r) p (λ _ p. Closed b p)
      go (err e) p at = (handle, inr at)
      go (ok domain) p at =
          rw at (λ r. (closed b handle, closes_file b domain handle r, (handle, inl refl)))

  write_open-Safe :
      (domain : ℕ) (handle : ℤ)
      → All IsByte content
      → Safe FileStep ⊥
          (write_open json machine domain content handle)
          (has_handle domain handle)
          AtEnd
  write_open-Safe domain handle bytes = λ r. (
    written (is_some r) handle,
    writes_file domain handle (base64_encode content) r (decode-encode content bytes),
    Safe-bind FileStep ⊥ (λ _ p. Closed (is_some r) p) AtEnd (close_file json machine handle) _ _
        (close_file-Safe (is_some r) handle) (λ _ p at. finish r p at),
  )
    where
      finish :
          (r : Option Bytes) (p : Place)
          → Closed (is_some r) p
          → AtEnd (check write_failed (is_some r)) p
      finish none p at = inr at
      finish (some reply) p at = at

  opened-Safe :
      (domain : ℕ)
      → All IsByte content
      → Safe FileStep ⊥
          (request (agent_command domain (json.serialize (open_request path)) default_time)
            >>= opened json machine domain content)
          (located domain)
          AtEnd
  opened-Safe domain bytes = go
    where
      with_reply :
          (reply : Bytes) (o : Option ℤ)
          → handle_of json reply ≡ o
          → (p : Place) × FileStep
              (located domain)
              (agent_command domain (json.serialize (open_request path)) default_time)
              (some reply)
              p
            × Safe FileStep ⊥
                (on_option (ret (err exception)) (write_open json machine domain content) o)
                p
                AtEnd
      with_reply reply none e = (refused, not_opens_file domain (some reply) (λ x h. cc), inl refl)
      with_reply reply (some handle) e = (
        has_handle domain handle,
        opens_file domain reply handle e,
        write_open-Safe domain handle bytes,
      )

      go :
          (r : Option Bytes)
          → (p : Place) × FileStep
              (located domain)
              (agent_command domain (json.serialize (open_request path)) default_time)
              r
              p
            × Safe FileStep ⊥ (opened json machine domain content r) p AtEnd
      go none = (refused, not_opens_file domain none (λ x h. cc), inl refl)
      go (some reply) = with_reply reply (handle_of json reply) refl

  write_file-Safe :
      All IsByte content → Safe FileStep ⊥ (write_file json machine path content) before AtEnd
  unfolding write_file
  write_file-Safe bytes =
      and_then-Safe FileStep ⊥ (AtDomain before) AtEnd (get_domain machine) _ before
        (get_domain-Safe before) (λ domain p at. rw at (opened-Safe domain bytes))
        (λ e p at. inl at)

  -- Whatever libvirt and the guest answer, `write_file` keeps to the protocol of a file: one file is
  -- opened at most, under the path; to its handle one base64 text is written, which decodes to the
  -- content; and the handle is closed once, unless the domain cannot be found again. It returns, and
  -- with success exactly if a file was opened and the write was answered.
  pub write_file_keeps_protocol :
      (env : Environment) (past : List Event)
      → All IsByte content
      → (p : Place) × Trail FileStep before
          (run env past (write_file json machine path content)).0
          p
        × Holds ⊥ AtEnd (run env past (write_file json machine path content)).1 p
  write_file_keeps_protocol env past bytes =
      Safe-run FileStep ⊥ AtEnd env past (write_file json machine path content) before
        (write_file-Safe bytes)
