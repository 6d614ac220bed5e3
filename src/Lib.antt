-- ===== src/Lib.antt =====
-- A model of the core logic of the swamp extensions: TypeScript models and reports that read cloud,
-- network and hypervisor inventories, and that copy disks between hosts.
--
-- The program is a set of packages that share no code. Each has models, whose methods read a service
-- and write resources, and reports, which read the resources of a run and give markdown and JSON. What
-- a package decides is in its pure files, and its methods call those; that is what is modelled.
--
-- trust-network: three scans write what they find on GitHub, on GCP and on Cloudflare. The method
-- `build` of trust-network/trust_graph.ts takes these items, derives a slice of trust domains and trust
-- edges from each platform, merges the slices and counts them; `assert_posture` compares the counts
-- with thresholds; the report of trust-network/trust_report.ts shows them.
--   - Trust.Schema: the resources of trust-network/shared/schema.ts; Trust.Naming: stableHash,
--     sanitizeInstanceName and trustEdgeId of that file.
--   - Trust.Findings: FINDING_CATALOG and makeFinding of trust-network/shared/graph.ts; Trust.Domains:
--     ensureDomain and the ids of domains; Trust.Github, Trust.Gcp and Trust.Cloudflare:
--     deriveGithubSlice, deriveGcpSlice and deriveCloudflareSlice, a loop's body being a function on
--     the slice built so far (add_secret, add_provider, add_key, add_idp, add_app, add_token);
--     Trust.Owners: extractRepoOwners, its patterns being lists of pieces; Trust.Inventory:
--     computeInventory; Trust.Report: renderPosture, and
--     in Trust.Report.Run the report's execute.
--   - Trust.Build: coerceInputs and `build`; Trust.Gate: `assert_posture`.
--
-- fleet: the report of fleet/fleet_inventory.ts makes a row of each guest that a step of a workflow
-- wrote, merges the rows of one guest and adds them up. Fleet: the normalizers, rowFor and dedupeRows of
-- fleet/render.ts; Fleet.Table: renderFleet and the report's execute.
--
-- The scans' requests go through trust-network/shared/http.ts. Trust.Http: requestRaw with its
-- attempts, waits and errors, and fetchJson; Trust.Http.Redact: redactSecrets; Trust.Http.Pages: both
-- paginations. What is fetched and slept is a list of events.
--
-- migrate: the commands that copy a disk. Migrate.Build: shq and the commands of migrate/build.ts;
-- Migrate.Shell: how a POSIX shell splits a command, against which they are proved. It is a description
-- of the shell, not code of the program, and refuses text that has another meaning to a shell.
-- Migrate.Bytes and Migrate.Edit: the other functions of migrate/build.ts, on the figures that dd
-- reports and on the script that edits a disk; Migrate.Ssh: migrate/ssh.ts; Migrate.Disk: the methods
-- stream and edit_guest_disk of migrate/disk.ts; Migrate.Poll: its method verify.
--
-- unifi: DNS records on a controller. Unifi.Parse: unifi/parse.ts; Unifi.Client: the request and its
-- error of unifi/client.ts, and redactSecret of unifi/util.ts; Unifi.Dns: the three methods of
-- unifi/dns.ts, each giving the requests that it sent and the resources that it wrote.
--
-- cloudflare: the scan of Access. Cloudflare.Policy: cloudflare/policy.ts; Cloudflare.Scan: the method
-- scan of cloudflare/zerotrust.ts, a loop's body being a function on the scan so far.
--
-- omni: machines and clusters of Omni. Omni.Split: parseOmnictlJson of omni/omnictl.ts; Omni.Nodes:
-- buildNode of omni/transform.ts; Omni.Merge: mergeInventory, and the method discover of
-- omni/inventory.ts.
--
-- helios: an illumos host, over ssh. Helios.Schema: the resources; Helios.Ssh: helios/shared/ssh.ts;
-- Helios.Lines and Helios.Links: what its models read output with; Helios.Zonecfg and Helios.Script:
-- parseZoneadmListLine, parseZonecfgExport, humanToMb and buildZonecfgScript of helios/helios_zone.ts;
-- Helios.Zone: its methods, with gatherZone in Helios.Zone.Gather and the method inventory in
-- Helios.Zone.Inventory; Helios.Zfs: helios/helios_zfs.ts; Helios.Dladm: helios/helios_dladm.ts;
-- Helios.Words: what a shell reads in the commands.
--
-- truenas: virtual machines. Truenas.Values and Truenas.Lookup: truenas/vm_parse.ts; Truenas.Vm: the
-- session and toVmInstance of truenas/vm.ts, with its methods in Truenas.Vm.Storage (create_zvol,
-- attach_disk, attach_nic) and Truenas.Vm.Machines (create_vm, start, stop, status, delete).
-- Truenas.Quantities and Truenas.Guests: truenas/parse.ts, the guests of a host and their roll-up.
--
-- Methods that call a service are of the type Action (Common.Action): the calls made so far go in, and
-- all calls and a result come out. A result is a value or the message of the error thrown. The children
-- of Common.Action have rules on what an action calls, how often, and what it returns.
--
-- Common has what the parts share: texts are lists of UTF-16 code units, JavaScript values are the type
-- Value, a Map or a Record is an association list in insertion order, and sort is stable. Common.Assoc
-- has the laws of maps, Common.Text.Distinct those of `[...new Set(texts)]`. Common.Plain counts in a
-- plain object, which reads what Object.prototype has under a name as a count; the counts by state and
-- by brand of helios, and those of trust-network, fleet and truenas, are for names that it does not have.
--
-- State is passed on: a graph slice, a list of domains, the best row of each key, the calls made so
-- far. Errors are values: Parsed, Stored and Verdict for the trust graph, Result elsewhere.
--
-- Numbers are natural, or integers over them where the source allows a sign. A count and a sum are exact
-- here; a JavaScript number is exact below 2^53. stableHash keeps its 32 bits, with `% 2 ^ 32` written
-- out. A number that comes from outside is of the type Number, a sign with a fraction over a power of two,
-- on which sums and comparisons are exact; rounding to 53 bits is left out. Percentages and their thresholds are whole numbers, and the duration of a token is not negative.
-- toLowerCase is modelled on the ASCII letters and on the two other units whose lower case has an ASCII
-- letter, toUpperCase on the ASCII letters: the remaining units stay as they are.
--
-- Loops are structural. The loop of verify (Migrate.Poll) has fuel for one round more than its timeout
-- has seconds, which is enough where a sleep takes its time, as shown. The loop of a request has the
-- rounds of the source, one more than the retries. The digits of n take n + 1 rounds of fuel, and each round divides n by ten. A
-- search with a pattern, and the split at a secret, go through a text unit by unit, and count the units
-- that a match still covers.
--
-- Parameters stand for what is not in the repository or is the runtime's: the schemas' safeParse and the
-- host of a URL (Trust.Build.Runtime), localeCompare (locale_le), what Object.prototype has under a
-- name (inherited, of Omni.Merge.Runtime), the reading of a resource (Reader,
-- read_handle), the transport to a controller with encodeURIComponent and JSON.stringify
-- (Unifi.Client.Runtime), and `String` of a value (number_text, string_of); the network, the clock and
-- the jitter of a delay (Trust.Http.Runtime); the processes that ssh starts and how they end
-- (Migrate.Ssh.Processes), the clock of a copy (Migrate.Disk.Clock), and the times and answers of a poll
-- (Migrate.Poll.Polled); the queries of Omni (Omni.Merge.Runtime) and JSON.parse; the lists of
-- Cloudflare's client (Cloudflare.Scan.Client); the processes, the clock and the conversions of helios
-- (Helios.Ssh.Host); and the session with a
-- TrueNAS host and the schemas' parse (Truenas.Vm.Runtime). Each answers by what was called before. No
-- theorem has a hypothesis on these but what a step at hand returned, that a sleep takes at least its
-- length and time does not go back (IsClock), that a setting is printed with a space behind `set`
-- (PrintsSpaces), what dd and dladm print, and, for the postures of applications, that a key tells
-- applications apart.
--
-- Not modelled: log lines; the scans of trust-network, which call APIs over HTTP; the package aurae,
-- and in helios the diagnostics of a host; in truenas the method that fetches the inventory and the client, in omni the running of the tool, in
-- migrate the summary and the default probe; the live checks and the fetch of unifi.
pub mod Common
pub mod Helios
pub mod Cloudflare
pub mod Trust
pub mod Fleet
pub mod Migrate
pub mod Omni
pub mod Unifi
pub mod Truenas
