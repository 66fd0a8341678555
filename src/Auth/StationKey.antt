-- ===== src/Auth/StationKey.antt =====
-- The guard of the agents' routes.
use resaprint.Base.{
  ◌≡◌, refl, inl, inr, Bool, true, false, ◌&&◌, Option, none, some, String, arith, In, ltb, truthy,
  at_most_one, Bool-cases,
}
use resaprint.Base.Lemmas.{In-select}
use resaprint.Models.{PrintStation, Time}
use resaprint.Text.{len, take_chars, strip, after_space}
use resaprint.Database.{Session, returned, raised, http_error, >>=-returned, ◌>>=◌}
use resaprint.Auth.Guards.{
  has_prefix, is_usb, key_fits, stations_with_prefix, invalid_key, touch_station, accept_station,
  find_station, check_station_key, starts_with_lower, require_station_key,
}
use resaprint.Auth.Roles.{one_or-returned, at_most_one-one_row}

module _ (verify : String → String → Bool) (now : Time) where
  -- The row that a key opens: of an active USB agent, with the key's first characters and its hash.
  abbrev pub Opens : String → Session → PrintStation → Type 0
  Opens api_key s old =
      In old s.current.print_stations.rows
      × (old.is_active ≡ true)
      × (is_usb old ≡ true)
      × (has_prefix (take_chars 12 api_key) old ≡ true)
      × (key_fits verify api_key old ≡ true)
      × (ltb (len api_key) 12 ≡ false)

  accept_station-returned :
      (api_key : String) (old station : PrintStation) (s : Session)
      → (accept_station verify now api_key old s).0 ≡ returned station
      → (key_fits verify api_key old ≡ true) × (station ≡ record old { last_seen_at = some now })
  unfolding accept_station touch_station
  accept_station-returned api_key old station s h =
      elim (Bool-cases (key_fits verify api_key old)) [
        | inl t ↦
            let h' : returned (record old { last_seen_at = some now }) ≡ returned station =
              rw t at h in
            (t, cc)
        | inr f ↦ let h' : raised invalid_key ≡ returned station = rw f at h in absurd (cc)
      ]

  find_station-returned :
      (prefix : String) (old : PrintStation) (s : Session)
      → (find_station verify now prefix s).0 ≡ returned old
      → In old s.current.print_stations.rows
        × (has_prefix prefix old ≡ true)
        × (is_usb old ≡ true)
        × (old.is_active ≡ true)
  unfolding find_station stations_with_prefix
  find_station-returned prefix old s h =
      let found =
        one_or-returned invalid_key (at_most_one (stations_with_prefix prefix s.current)) s old h in
      let m = at_most_one-one_row (stations_with_prefix prefix s.current) old found in
      let (row, e) =
        In-select (λ s. has_prefix prefix s && (is_usb s && s.is_active)) old
          s.current.print_stations.rows m in
      (row, ground arith, ground arith, ground arith)

  check_station_key-Opens :
      (api_key : String) (station : PrintStation) (s : Session)
      → (check_station_key verify now api_key s).0 ≡ returned station
      → (old : PrintStation) × Opens api_key s old
        × (station ≡ record old { last_seen_at = some now })
  unfolding check_station_key
  check_station_key-Opens api_key station s h = elim (Bool-cases (ltb (len api_key) 12)) [
    | inl short ↦ let h' : raised invalid_key ≡ returned station = rw short at h in absurd (cc)
    | inr long ↦
        let prefix = take_chars 12 api_key in
        let h' : ((find_station verify now prefix >>= accept_station verify now api_key) s).0
            ≡ returned station =
          rw long at h in
        let (old, found, rest) =
          >>=-returned (find_station verify now prefix) (accept_station verify now api_key) s h' in
        let (row, same, usb, active) = find_station-returned prefix old s found in
        let accepted : (accept_station verify now api_key old
              (find_station verify now prefix s).1).0
            ≡ returned station =
          rw rest at h' in
        let (fits, e) =
          accept_station-returned api_key old station (find_station verify now prefix s).1
            accepted in
        (old, (row, active, usb, same, fits, long), e)
  ]

  -- The guard of the agents' routes returns a station only if the header is a bearer header and its
  -- key, of at least twelve characters, has the prefix and fits the hash of an active USB agent's
  -- row; the station is that row with its last contact dated.
  pub require_station_key_sound :
      (authorization : Option String) (s : Session) (station : PrintStation)
      → (require_station_key verify now authorization s).0 ≡ returned station
      → (header : String) × (authorization ≡ some header)
        × (starts_with_lower "bearer " header ≡ true)
        × (old : PrintStation) × Opens (strip (after_space header)) s old
        × (station ≡ record old { last_seen_at = some now })
  unfolding require_station_key
  require_station_key_sound none s station h = absurd (cc)
  require_station_key_sound (some header) s station h =
      elim (Bool-cases (truthy header && starts_with_lower "bearer " header)) [
        | inl t ↦
            let h' : (check_station_key verify now (strip (after_space header)) s).0
                ≡ returned station =
              rw t at h in
            let (old, opens, e) =
              check_station_key-Opens (strip (after_space header)) station s h' in
            (header, refl, ground arith, old, opens, e)
        | inr f ↦
            let h' : raised (http_error 401 "missing station API key") ≡ returned station =
              rw f at h in
            absurd (cc)
      ]
