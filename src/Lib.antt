-- ===== src/Lib.antt =====
-- Models and proofs for the backend of ZeroProof, which watches a UniFi network: it ingests flows and
-- threats, runs detectors over them, keeps the findings, and checks the network's configuration
-- against the owner's intent and against declarative rules.
--
-- How the parts interact. The scheduler calls `runAllDetectors` (backend/src/detectors/runner.ts). The
-- runner takes the detectors of the registry (backend/src/detectors/registry.ts), evaluates each over
-- its window of the ingested rows (backend/src/detectors/*.ts), and hands the findings to
-- `persistDetectionResults` (backend/src/services/detection/detectionService.ts), which keeps one row
-- for each fingerprint; a daily sweep deletes old rows. Apart from that, the reachability policy
-- (backend/src/services/reachabilityPolicyService.ts) weighs the intent profile against what the
-- topology analyzer infers, and the rule engine (backend/src/services/ruleLoader/ruleEngine.ts)
-- executes YAML rules on the configuration. Devices report the results of network tests over MQTT,
-- whole or in chunks (backend/src/mqtt/index.ts), and these are merged into the record of the test
-- run.
--
-- Which file models which part:
--   Base              JavaScript's Map (Base/Dict), grouping loops over a Map (Base/Groups), texts
--                     (Base/Text), Boolean tests on numbers and lists
--   Detection         Severity, DetectionEvidence, DetectionResult and DetectorContext of
--                     backend/src/detectors/framework.ts; Detection/Table is the table of
--                     backend/prisma/schema.prisma as an interface of operations and laws;
--                     Detection/Service is persistDetectionResults and cleanupExpiredDetections;
--                     Detection/Analytics is the list topAffected of getDetectionSummary
--                     (backend/src/services/detection/detectionAnalytics.ts)
--   Detectors         the rows that detectors query, the environment and the helpers they share; one
--                     file for each detector, named like its source file; its child Reports has the
--                     proofs, which Merging and Threshold carry.
--                     Identity is backend/src/detectors/identity.ts, ThreatIntel the look-ups of
--                     backend/src/services/threatIntel/iocFeedService.ts, Paging the loop over the
--                     pages of a table, IocMatch mergeFinding and the run of iocMatch.ts;
--                     ValidatedCompromise has children for the candidates, the matching of flows, the
--                     correlation with threats, the run and the findings made of it
--   Runner            runDetector and runAllDetectors; Runner/Registry is the registry
--   Reachability      the profile; Categories (normalizeCategory, inferCategoryFromName,
--                     buildCategoryMap), Intent (computeIntentExpectation), Effective
--                     (buildEffectiveReachabilityMap), Decision (toDecision), Evaluator (the object
--                     that createReachabilityPolicyEvaluator returns)
--   Topology          backend/src/services/topologyAnalyzer.ts: Nodes (buildNetworkNodes, the maps of
--                     networks and groups), Pairs (pairRules, the isolation each pair begins with),
--                     Rules and Policies (what legacy rules and zone policies apply to), Connections
--                     (shouldBeIsolated, buildConnections, buildWanConnections); its children Laws,
--                     Policy and Reverse have the proofs, Policy those on the reachability policy
--   Rules             Value (JavaScript values, getFieldValue), Conditions (evaluateCondition),
--                     Networks (getNetworkType and the classes of networks), Template
--                     (interpolateTemplate), Targets and Filters (getTargetItems), Rule (the types of
--                     rules and results), Findings, CrossReferences and Aggregates (the parts of
--                     executeRule and executeAggregateRule), Execution (executeRule,
--                     executeAllRules)
--   TestResults       Json is backend/src/services/testRunResultsJson.ts; Chunks the buffers of chunked
--                     results of backend/src/mqtt/index.ts and Handling its handlers of results and
--                     chunks; their children have the proofs
--   DnsAllowlist      loadAllowlistSnapshot and isAllowlisted of
--                     backend/src/services/dnsAllowlist.ts, which the detector of DNS tunneling asks
--   PortForwards      analyzePortForwards of backend/src/analyzers/portForwardAnalyzer.ts; Called
--                     says what each port forward calls for, Told has the proofs
--   Firewall          backend/src/analyzers/firewallAnalyzer.ts: Checks (of one rule and of all), Pairs
--                     (findRuleConflicts), Analysis (analyzeFirewallRules); Conflicting,
--                     OrderedPairs and Conflicts have the proofs
--   Tests             the theorems at concrete inputs
--
-- Conventions. A loop over a list is a structural recursion, so there is fuel only in three places.
-- In Base/Text the digits of a number are printed with the number itself, plus one, as fuel: each
-- digit divides it by ten. In Detectors/Paging a page that is not the last has a row, so that more
-- fuel than rows is enough. The slices of ValidatedCompromise have the length of their list as
-- fuel. Times are milliseconds; `clock i` is the i-th reading of the clock. Confidences are in
-- hundredths. A mutated Map or summary is a value that each step returns anew.
--
-- Assumptions. Texts are lower-cased on ASCII letters. The numerals of the environment and of compared
-- values are natural numbers in decimal; JavaScript's other numerals (signs, fractions, hexadecimal)
-- read as NaN here. The database is a parameter: `Rows` answers a query with rows that satisfy its
-- `where` clause, and `Table` finds what was last written under a fingerprint. Writes to it do not
-- fail. A `PagedQuery` answers from the same rows for the whole of a loop, in the order of their ids,
-- which are distinct. Evaluating a detector may fail. `Array.sort` is stable. The engine of regular
-- expressions is a parameter, and so are `JSON.stringify`, `JSON.parse`, `Date.parse`, digests, the
-- parsing of URLs and the test of a text's entropy. The ids of stored flows are not blank.
--
-- Not modelled: the frontend, the ESP32 firmware, HTTP routes, the rest of MQTT, the clients of
-- other services and logging, which are input and output; the other analyzers, the explicit routes,
-- device groups and warnings of the topology, the loading of rules, the texts of IOC findings and
-- the counts that the database makes.
pub mod Base
pub mod Detection
pub mod Detectors
pub mod Reachability
pub mod Rules
pub mod Runner
pub mod DnsAllowlist
pub mod PortForwards
pub mod Firewall
pub mod Topology
pub mod TestResults
mod Tests
