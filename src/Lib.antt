-- ===== src/Lib.antt =====
-- Open Fire Watch watches munitions-contaminated woods and depots for fires. Workers fetch satellite
-- detections and weather and put one report per detection on a queue; the backend evaluates each
-- report against the zone that it lies in, stores the verdict and broadcasts it; ground sensors
-- refine the verdicts and raise alerts of their own; notifications carry critical alerts to people,
-- and the screens show what is outstanding. Paths below are from the repository's root.
--
-- Base: numbers, lists, maps and tests that the parts share. Measured quantities are integers, in
--   thousandths of their unit (`units n` is n whole units), a place is in millionths of a degree, a
--   time is in milliseconds and a day is its number on one calendar. Floating point numbers are not
--   modelled: a sum or a difference of measurements is exact here.
-- Store: the tables and the bus that the services share, `thermal_anomalies`
--   (deploy/db/init.sql), `validated_events` and the Redis channel `alerts:anomalies`.
-- Evaluation.Level, .Credible: backend/src/evaluation/alert-level.enum.ts (AlertLevel, isCritical,
--   HAZARD_PROFILES, profileFor, isCredibleDetection). A confidence is its UTF-16 text, and the
--   language's `Number` a parameter.
-- Evaluation.Decision: alert-decision.ts (decide).
-- Evaluation.Report: detection-report.dto.ts. Evaluation.Service: anomaly-evaluation.service.ts
--   (evaluate, detectSmouldering, SMOULDERING_SQL). Each call that can throw is a stage, and an
--   argument says which stages fail; what was written before stays, as in the code, which has no
--   transaction. PostGIS, the rows of the sensor query and the clock are parameters.
-- Sensors.Current: backend/src/sensors/sensor.service.ts (currentByZone, mostConservative, pick).
-- Sensors.Registry: the same file (record, register, update, retire), on the tables `ground_sensors`
--   and `sensor_readings`; `record` hands each reading to SensorAlert.
-- Sensors.Intake: sensor-reading.dto.ts (normaliseIntakeBody), sensors.controller.ts (ingest) and
--   sensor-ingest.guard.ts (canActivate).
-- SensorAlert: backend/src/sensors/sensor-alert.service.ts (evaluate, calibratedReading,
--   baselineMedian, inCooldown, raise). The database's median and product are parameters.
-- Backfill.Plan: workers/src/ingestion/satellite-backfill.plan.ts (planBackfill, coverageGaps). The
--   loop over one product runs on the number of its days as fuel, which is enough: each round moves
--   on by a day or more.
-- Backfill.Runs: backend/src/backfill/backfill.service.ts (start), on the register of the runs,
--   each call as its statements of the database and its call of the queue, which other calls'
--   may come between.
-- Backfill.Pacing, .Weather, .Actions, .Replay: workers/src/ingestion/satellite-backfill.task.ts (backfillSatellite,
--   fetchWithPacing, ensureWeatherHistory, publishBackfilled, weatherAt) with storeWeatherHours and
--   countWeatherDays of history-backfill.task.ts. The endless loop of fetchWithPacing runs on fuel
--   for thirteen attempts, which is enough: the twelfth pause is the last. Backfill.Nightly:
--   history-backfill.task.ts (backfillHistory, yearIsComplete).
-- Ingestion: workers/src/ingestion/ingest.task.ts (ingestDetections), clients/firms.client.ts
--   (fetchFirmsArea) and firms-sources.ts (resolvePollSources). A job id is kept as the four parts of
--   its text. An acquisition time is an instant: a text that is none fails the same validation.
-- RiskZones.Slug, .Keys: backend/src/risk-zones/risk-zone.service.ts (slugify, reserveKey). The
--   endless loop for a free key runs on fuel for one round more than there are taken keys, which is
--   enough: the candidates differ. RiskZones.Table: the same file (create, update, deactivate,
--   seedDemoZones, findZonesContaining, translateDbError). RiskZones.Geometry: risk-zone.dto.ts
--   (IsGeoJsonPolygon), over Base.Json.
-- Incidents: backend/src/incidents/incidents.service.ts (list, summarise, create, update, remove).
-- Notifications.Dispatch: backend/src/notifications/notification.service.ts and
--   notification.model.ts (notify, deliver, claim, meetsSeverityFloor, onAlert, record).
--   Notifications.Escalation: escalation.service.ts (sweep). Notifications.Watchdog:
--   ingestion-watchdog.service.ts (check). What a channel, Redis and the database answer is a
--   parameter. A claim holds until its time to live has passed. Notifications.Texts:
--   notification-texts.ts, a body as its lines.
-- Forecast: backend/src/forecast/forecast.service.ts (evaluate, findWindows). Forecast.Refresh:
--   workers/src/ingestion/forecast.task.ts (refreshForecast).
-- Readiness: backend/src/conditions/conditions.service.ts (assess, summariseDanger) and
--   frontend/src/app/features/conditions/readiness.ts (isWindowOpen, isPartiallyMet, readinessText).
-- Status: backend/src/status/system-status.ts (classify, overallState). Status.Documents,
--   Status.Service: status.service.ts (current and the reads that it is put together from).
-- FireDanger.Numbers, .Codes, .Indices, .Daily: workers/src/fire-danger/fwi.ts. The language's numbers
--   are a parameter with the laws of their comparisons and of the signs of sums, differences and products, NaN
--   included; exp, log, sqrt and the power are
--   operations without laws. FireDanger.Refresh: workers/src/ingestion/fire-danger.task.ts
--   (refreshFireDanger, store, round), with each call that can throw as an argument.
--   FireDanger.Serving: backend/src/fire-danger/fire-danger.service.ts (current, todayByZone).
-- OpenMeteo: workers/src/clients, forecast.client.ts (fetchForecast), archive.client.ts (fetchArchive)
--   and fire-weather.client.ts (fetchFireWeather), from the answer of the service on.
-- MonitoringArea: workers/src/clients/monitoring-area.ts (resolveMonitoringArea, parseBbox,
--   listZonePoints), in billionths of a degree.
-- History: backend/src/history/history.service.ts (summary, forZone, groupByYear and the query of the
--   days). History.Csv: the same file (ignitionDaysCsv, csvField).
-- Configuration: backend/src/config/environment.ts (loadConfig, parsePort). Configuration.Problems: its
--   list of problems, as a monad that goes on after each.
-- Access: backend/src/auth/api-key.guard.ts (canActivate) and, under frontend/src/app/core/api,
--   operator-key.service.ts, operator-key.interceptor.ts and api-error.ts.
-- Gateway: backend/src/alerts/alerts.gateway.ts, the relay of the messages of the two channels.
-- Warnings: frontend/src/app/features/alerts/data-access/real-time-alert.service.ts (pushWarning,
--   applyAcknowledgement, loadHistory), as the messages that change a screen.
-- ZoneDraw: frontend/src/app/features/zones/data-access/zone-draw.service.ts (start, startPointPick,
--   finish, cancel, the handlers of clicks, moves and keys), as gestures on its state.
-- Alerts: backend/src/alerts/alert-history.service.ts (acknowledge, setOutcome), on the rows of the
--   verdicts.
-- Tests: the theorems at concrete inputs.
--
-- Not modelled: the other HTTP clients, the channels' calls, the printed report,
-- templates, translations, styles and set-up code, which are input and output.
pub mod Base
pub mod Evaluation
pub mod Sensors
pub mod Store
pub mod Backfill
pub mod Notifications
pub mod Forecast
pub mod Status
pub mod Readiness
pub mod SensorAlert
pub mod Warnings
pub mod Alerts
pub mod ZoneDraw
pub mod RiskZones
pub mod Incidents
pub mod Ingestion
pub mod Configuration
pub mod Access
pub mod Gateway
pub mod FireDanger
pub mod History
pub mod MonitoringArea
pub mod OpenMeteo
pub mod Tests
